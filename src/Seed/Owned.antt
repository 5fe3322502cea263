-- ===== src/Seed/Owned.antt =====
-- Seeding and the objects of other managers.
use cluster_inventory_api.Common.{
  ℕ, zero, suc, ◌+◌, ◌≡◌, ◌≢◌, ◌⊎◌, ◌∙◌, sym, ap, subst, inl, inr, String, Bool-cases, Option, none,
  some, ◌==◌, Fallible, Fallible-cases, ok, err, str_eq→eq, ℤ, pos, negsuc,
}
use cluster_inventory_api.Apis.{ClusterProfile}
use cluster_inventory_api.Seed.{object_name}
use cluster_inventory_api.Seed.Objects.{
  CreateFault, Server, Tools, new_profile, with_status, reused, owned, seed_cluster_profile,
  seed_from, namespace_fault, seed_namespace, seed,
}

-- Two objects of one name that a status update or a Create may have between them.
pub record HasSpecOf (p o : ClusterProfile) : Type 0 where
  pub spec : o.spec ≡ p.spec
  pub labels : o.metadata.labels ≡ p.metadata.labels

-- What the API server promises: a Create makes a new object or changes nothing; UpdateStatus writes the
-- status of the object of that name or changes nothing; neither touches another object.
pub record IsLawful (S : Server) : Type 0 where
  pub namespace-get : (s : S.State) (n : String) → S.get (S.create_namespace s).0 n ≡ S.get s n
  pub get-named :
      (s : S.State) (n : String) (o : ClusterProfile) → S.get s n ≡ ok o → o.metadata.name ≡ n
  pub create-other :
      (s : S.State) (p : ClusterProfile) (n : String) (o : ClusterProfile)
      → S.get s n ≡ ok o
      → S.get (S.create s p).0 n ≡ ok o
  pub create-new :
      (s : S.State) (p c : ClusterProfile)
      → (S.create s p).1 ≡ ok c
      → ((o : ClusterProfile) → S.get s p.metadata.name ≢ ok o)
        × (S.get (S.create s p).0 p.metadata.name ≡ ok c)
        × HasSpecOf p c
  pub update-other :
      (s : S.State) (p : ClusterProfile) (n : String)
      → n ≢ p.metadata.name
      → S.get (S.update_status s p).0 n ≡ S.get s n
  pub update-same :
      (s : S.State) (p o : ClusterProfile)
      → (S.update_status s p).1 ≡ ok tt
      → S.get s p.metadata.name ≡ ok o
      → (o' : ClusterProfile) × (S.get (S.update_status s p).0 p.metadata.name ≡ ok o')
        × HasSpecOf o o'
        × (o'.status ≡ p.status)

module _ (S : Server) (law : IsLawful S) (t : Tools) (manager : String) where
  reused-ok :
      (name : String) (found : Fallible String ClusterProfile) (created : ClusterProfile)
      → reused manager name found ≡ ok created
      → (found ≡ ok created) × (created.spec.cluster_manager.name ≡ manager)
  reused-ok name (err text) created h = cc
  reused-ok name (ok found) created h =
      elim (Bool-cases (found.spec.cluster_manager.name == manager)) [
        | inr e ↦ cc (rw e at h)
        | inl e ↦
            let same : found ≡ created = cc (rw e at h) in
            (
              ap ok same,
              subst (λ (c : ClusterProfile). c.spec.cluster_manager.name ≡ manager) same
                  (str_eq→eq found.spec.cluster_manager.name manager e),
            )
      ]

  -- The object to fill was made by this call, or was there and is the manager's.
  pub owned-ok :
      (name : String) (s : S.State) (m : Fallible CreateFault ClusterProfile)
      (created : ClusterProfile)
      → owned S manager name s m ≡ ok created
      → (m ≡ ok created)
        ⊎ ((S.get s name ≡ ok created) × (created.spec.cluster_manager.name ≡ manager))
  owned-ok name s (ok c) created h = inl (cc)
  owned-ok name s (err e) created h = elim (Bool-cases e.already_exists) [
    | inl k ↦ inr (reused-ok name (S.get s name) created (rw k at h))
    | inr k ↦ cc (rw k at h)
  ]

  -- The object that a call fills has the name asked for and is the manager's, and no object of
  -- another manager has its name.
  pub record IsOwn (name : String) (s s₁ : S.State) (created : ClusterProfile) : Type 0 where
    pub held : S.get s₁ name ≡ ok created
    pub named : created.metadata.name ≡ name
    pub mine : created.spec.cluster_manager.name ≡ manager
    pub alone :
        (n : String) (o : ClusterProfile)
        → S.get s n ≡ ok o
        → o.spec.cluster_manager.name ≢ manager
        → n ≢ created.metadata.name

  pub IsOwn-owned :
      (index : ℕ) (s : S.State) (created : ClusterProfile)
      → let name = object_name t.lower manager index in
        let answer = S.create s (new_profile t manager index) in
        owned S manager name answer.0 answer.1 ≡ ok created → IsOwn name s answer.0 created
  unfolding new_profile
  IsOwn-owned index s created h =
      let name = object_name t.lower manager index in
      let p = new_profile t manager index in
      let answer = S.create s p in
      elim (owned-ok name answer.0 answer.1 created h) [
        | inl k ↦
            let (fresh, held, spec) = law.create-new s p created k in
            let named = law.get-named answer.0 name created held in
            record {
              held = held;
              named = named;
              mine = ap (λ x. x.cluster_manager.name) spec.spec;
              alone =
                  λ n o there other e. fresh o (subst (λ m. S.get s m ≡ ok o) (e ∙ named) there);
            }
        | inr (held, mine) ↦
            let named = law.get-named answer.0 name created held in
            record {
              held = held;
              named = named;
              mine = mine;
              alone = λ n o there other e.
                  let kept = law.create-other s p n o there in
                  let same : o ≡ created =
                    cc (subst (λ m. S.get answer.0 m ≡ ok o) (e ∙ named) kept, held) in
                  other (
                    subst (λ (c : ClusterProfile). c.spec.cluster_manager.name ≡ manager) (sym same)
                      mine);
            }
      ]

  -- One object's seeding.
  pub seed_cluster_profile-keeps :
      (index : ℕ) (s : S.State) (n : String) (o : ClusterProfile)
      → S.get s n ≡ ok o
      → o.spec.cluster_manager.name ≢ manager
      → S.get (seed_cluster_profile S t manager index s).0 n ≡ ok o
  unfolding seed_cluster_profile with_status
  seed_cluster_profile-keeps index s n o there other =
      let name = object_name t.lower manager index in
      let p = new_profile t manager index in
      let answer = S.create s p in
      let kept = law.create-other s p n o there in
      elim (Fallible-cases (owned S manager name answer.0 answer.1)) [
        | inr (e, k) ↦ rw k kept
        | inl (created, k) ↦
            let own = IsOwn-owned index s created k in
            rw k (
              law.update-other answer.0 (with_status t name index created) n
                (own.alone n o there other)
              ∙ kept)
      ]

  seed_from-keeps :
      (count index : ℕ) (s : S.State) (n : String) (o : ClusterProfile)
      → S.get s n ≡ ok o
      → o.spec.cluster_manager.name ≢ manager
      → S.get (seed_from S t manager count index s).0 n ≡ ok o
  unfolding seed_from
  seed_from-keeps zero index s n o there other = there
  seed_from-keeps (suc count) index s n o there other =
      let answer = seed_cluster_profile S t manager index s in
      let kept = seed_cluster_profile-keeps index s n o there other in
      elim (Fallible-cases answer.1) [
        | inr (e, k) ↦ rw (seed_from, k) kept
        | inl (u, k) ↦ rw (seed_from, k) (seed_from-keeps count (index + 1) answer.0 n o kept other)
      ]

  seed_namespace-keeps :
      (count : ℕ) (s : S.State) (fault : Option String) (n : String) (o : ClusterProfile)
      → S.get s n ≡ ok o
      → o.spec.cluster_manager.name ≢ manager
      → S.get (seed_namespace S t manager count s fault).0 n ≡ ok o
  seed_namespace-keeps count s (some text) n o there other = there
  seed_namespace-keeps count s none n o there other = seed_from-keeps count 1 s n o there other

-- However a seeding ends, an object that another manager owns is what it was before.
pub seed-keeps :
    (S : Server) (law : IsLawful S) (t : Tools) (manager : String) (clusters : ℤ) (s : S.State)
    (n : String) (o : ClusterProfile)
    → S.get s n ≡ ok o
    → o.spec.cluster_manager.name ≢ manager
    → S.get (seed S t manager clusters s).0 n ≡ ok o
unfolding seed
seed-keeps S law t manager (negsuc k) s n o there other = there
seed-keeps S law t manager (pos count) s n o there other =
    let answer = S.create_namespace s in
    seed_namespace-keeps S law t manager count answer.0 (namespace_fault S answer.1) n o
      (law.namespace-get s n ∙ there) other
