-- ===== src/Seed/Conforms.antt =====
-- A seeded object under the suite's checks of a profile's fields.
use cluster_inventory_api.Common.{
  ℕ, ◌≡◌, ◌≢◌, ◌⊎◌, ◌∙◌, inl, inr, ok_injective, Fallible-cases, Bool-cases, refl, sym, ap, subst,
  String, true, List, [], ◌∷◌, Fallible, ok, err, concat, All-weaken,
}
use cluster_inventory_api.Apis.{Condition, ClusterProfile, lookup}
use cluster_inventory_api.Conformance.Checks.{has_condition}
use cluster_inventory_api.Seed.{object_name}
use cluster_inventory_api.Seed.Objects.{
  CreateFault, Server, Tools, healthy, joined, new_profile, with_status, owned, status_result,
  seed_cluster_profile,
}
use cluster_inventory_api.Seed.Owned.{IsLawful, HasSpecOf, IsOwn-owned, owned-ok}
use cluster_inventory_api.Seed.Checked.{
  suffixed, HasStatus, HasLabels, status_requirements, label_requirements, HasStatus-fine,
  HasLabels-fine, check_fields-one, PassesAll,
}

-- SetStatusCondition sets the condition of that type, and drops none.
pub record SetsConditions (t : Tools) : Type 0 where
  pub sets :
      (cs : List Condition) (c : Condition) → has_condition c.type (t.set_condition cs c) ≡ true
  pub keeps :
      (cs : List Condition) (c : Condition) (type : String)
      → has_condition type cs ≡ true
      → has_condition type (t.set_condition cs c) ≡ true

status_result-ok :
    (S : Server) (name : String) (m : Fallible String (Unit {0}))
    → status_result S name m ≡ ok tt
    → m ≡ ok tt
status_result-ok S name (ok u) h = refl
status_result-ok S name (err text) h = cc

-- The API server answers AlreadyExists only where there is an object of that name.
pub record TellsExisting (S : Server) : Type 0 where
  pub tells :
      (s : S.State) (p : ClusterProfile) (e : CreateFault)
      → (S.create s p).1 ≡ err e
      → e.already_exists ≡ true
      → (o : ClusterProfile) × (S.get s p.metadata.name ≡ ok o)

-- What the labels of the object that the call leaves are: those of the object that was there, or,
-- where there was none, labels that pass the checks.
abbrev pub LabelsMean : (S : Server) → String → S.State → String → ClusterProfile → Type 0
LabelsMean S manager s name o =
    ((p : ClusterProfile) × (S.get s name ≡ ok p)
      × (p.spec.cluster_manager.name ≡ manager)
      × HasSpecOf p o)
    ⊎ (((p : ClusterProfile) → S.get s name ≢ ok p) × PassesAll label_requirements o)

module _ (S : Server) (law : IsLawful S) (t : Tools) (sets : SetsConditions t)
    (manager : String) where
  -- The status that the update writes
  written_status :
      (name : String) (index : ℕ) (c o : ClusterProfile)
      → o.status ≡ (with_status t name index c).status
      → HasStatus o
  unfolding with_status
  written_status name index c o status =
      let conditions = c.status.conditions in
      record {
        version = ap (λ x. x.version.kubernetes) status;
        is_healthy =
            ap (λ x. has_condition "ControlPlaneHealthy" x.conditions) status
            ∙ sets.keeps (t.set_condition conditions healthy) joined "ControlPlaneHealthy"
                (sets.sets conditions healthy);
        is_joined =
            ap (λ x. has_condition "Joined" x.conditions) status
            ∙ sets.sets (t.set_condition conditions healthy) joined;
      }

  made_labels :
      (index : ℕ) (c o : ClusterProfile)
      → HasSpecOf (new_profile t manager index) c
      → HasSpecOf c o
      → HasLabels manager o
  unfolding new_profile lookup
  made_labels index c o made kept =
      let labels = kept.labels ∙ made.labels in
      let name = object_name t.lower manager index in
      record {
        manager_name = ap (λ x. x.cluster_manager.name) (kept.spec ∙ made.spec);
        manager_label = rw labels refl;
        member_label = (concat (name ∷ "-id" ∷ []), rw labels refl, suffixed name);
      }

  -- Where the Create did not make the object, it is there and the manager's.
  owned_before :
      (name : String) (s : S.State) (m : Fallible CreateFault ClusterProfile) (c : ClusterProfile)
      → owned S manager name s m ≡ ok c
      → (m ≡ ok c)
        ⊎ ((e : CreateFault) × (m ≡ err e)
            × (e.already_exists ≡ true)
            × (S.get s name ≡ ok c)
            × (c.spec.cluster_manager.name ≡ manager))
  owned_before name s (ok d) c h = inl (cc)
  owned_before name s (err e) c h = elim (Bool-cases e.already_exists) [
    | inr k ↦ cc (rw k at h)
    | inl k ↦ elim (owned-ok S law t manager name s (err e) c h) [
      | inl a ↦ cc (a)
      | inr (held, mine) ↦ inr (e, refl, k, held, mine)
    ]
  ]

  labels_left :
      (told : TellsExisting S) (index : ℕ) (s : S.State) (c o : ClusterProfile)
      → let name = object_name t.lower manager index in
        let answer = S.create s (new_profile t manager index) in
        owned S manager name answer.0 answer.1 ≡ ok c
        → HasSpecOf c o
        → LabelsMean S manager s name o
  unfolding new_profile
  labels_left told index s c o owns kept =
      let name = object_name t.lower manager index in
      let p = new_profile t manager index in
      let answer = S.create s p in
      elim (owned_before name answer.0 answer.1 c owns) [
        | inl made ↦
            let (fresh, held, spec) = law.create-new s p c made in
            let labels = made_labels index c o spec kept in
            inr (
              fresh,
              All-weaken _ _ (λ req. check_fields-one req o) label_requirements
                  (HasLabels-fine manager o labels),
            )
        | inr (e, failed, existing, held, mine) ↦
            let (q, there) = told.tells s p e failed existing in
            let same : q ≡ c = ok_injective q c (sym (law.create-other s p name q there) ∙ held) in
            inl (
              q,
              there,
              subst (λ (x : ClusterProfile). x.spec.cluster_manager.name ≡ manager) (sym same) mine,
              subst (λ x. HasSpecOf x o) (sym same) kept,
            )
      ]

  -- On a server that keeps its laws and answers AlreadyExists only where there is an object of the name,
  -- with a SetStatusCondition that sets its condition and drops none: where the call returns no error,
  -- the object that the server then holds is the manager's, and the checks of the healthy and joined conditions and of the version pass on it. If there was an object
  -- of its name before the call, it was the manager's and the labels are still its labels; if there was
  -- none, the checks of the manager label and of the member ID, by value and by presence, pass too.
  pub seed_cluster_profile-passed :
      (told : TellsExisting S) (index : ℕ) (s : S.State)
      → (seed_cluster_profile S t manager index s).1 ≡ ok tt
      → (o : ClusterProfile) × (S.get
            (seed_cluster_profile S t manager index s).0
            (object_name t.lower manager index)
          ≡ ok o)
        × (o.spec.cluster_manager.name ≡ manager)
        × PassesAll status_requirements o
        × LabelsMean S manager s (object_name t.lower manager index) o
  unfolding seed_cluster_profile
  seed_cluster_profile-passed told index s done =
      let name = object_name t.lower manager index in
      let answer = S.create s (new_profile t manager index) in
      elim (Fallible-cases (owned S manager name answer.0 answer.1)) [
        | inr (fault, k) ↦ cc (rw k at done)
        | inl (c, owns) ↦
            let own = IsOwn-owned S law t manager index s c owns in
            let filled = with_status t name index c in
            let written : (S.update_status answer.0 filled).1 ≡ ok tt =
              status_result-ok S name (S.update_status answer.0 filled).1 (rw owns at done) in
            let there : S.get answer.0 filled.metadata.name ≡ ok c =
              subst (λ n. S.get answer.0 n ≡ ok c) (sym own.named) own.held in
            let (o, got, kept, status) = law.update-same answer.0 filled c written there in
            (
              o,
              rw owns
                  (subst (λ n. S.get (S.update_status answer.0 filled).0 n ≡ ok o) own.named got),
              ap (λ x. x.cluster_manager.name) kept.spec ∙ own.mine,
              All-weaken _ _ (λ req. check_fields-one req o) status_requirements
                  (HasStatus-fine o (written_status name index c o status)),
              labels_left told index s c o owns kept,
            )
      ]
