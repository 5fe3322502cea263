-- ===== src/Seed/Memory.antt =====
-- A server in memory.
use cluster_inventory_api.Common.{
  ◌≡◌, ◌≢◌, refl, sym, ap, inl, inr, subst, String, Bool-cases, true, Option, none, some, ◌==◌,
  if◌then◌else◌, Fallible, ok, err, eq_refl, ne→str_eq, str_eq→eq,
}
use cluster_inventory_api.Apis.{ClusterProfile}
use cluster_inventory_api.Seed.Objects.{CreateFault, Server}
use cluster_inventory_api.Seed.Owned.{IsLawful, HasSpecOf}

abbrev pub Objects : Type 0
Objects = String → Option ClusterProfile

abbrev named : String → ClusterProfile → ClusterProfile
named n o = record o { metadata = record (o.metadata) { name = n } }

abbrev pub read : String → Option ClusterProfile → Fallible String ClusterProfile
read n none = err "not found"
read n (some o) = ok (named n o)

abbrev put : Objects → String → ClusterProfile → Objects
put s n o m = if n == m then some o else s m

abbrev pub make :
    Objects → ClusterProfile → Option ClusterProfile → Objects × Fallible CreateFault ClusterProfile
make s p none = (put s p.metadata.name p, ok p)
make s p (some o) = (s, err (record { text = "already exists"; already_exists = true }))

abbrev write :
    Objects → ClusterProfile → Option ClusterProfile → Objects × Fallible String (Unit {0})
write s p none = (s, err "not found")
write s p (some o) = (put s p.metadata.name (record o { status = p.status }), ok tt)

abbrev pub memory : Server
memory = record {
  State = Objects;
  create_namespace = λ s. (s, none);
  create = λ s p. make s p (s p.metadata.name);
  get = λ s n. read n (s n);
  update_status = λ s p. write s p (s p.metadata.name);
}

read-named :
    (n : String) (m : Option ClusterProfile) (o : ClusterProfile)
    → read n m ≡ ok o
    → o.metadata.name ≡ n
read-named n none o h = cc
read-named n (some p) o h =
    let e : named n p ≡ o = cc in sym (ap (λ (x : ClusterProfile). x.metadata.name) e)

put-other : (s : Objects) (n m : String) (o : ClusterProfile) → n ≢ m → put s n o m ≡ s m
put-other s n m o h = rw (ne→str_eq n m h) refl

make-other :
    (s : Objects) (p : ClusterProfile) (n : String) (o : ClusterProfile) (m : Option ClusterProfile)
    → s p.metadata.name ≡ m
    → read n (s n) ≡ ok o
    → read n ((make s p m).0 n) ≡ ok o
make-other s p n o (some q) e h = h
make-other s p n o none e h = elim (Bool-cases (p.metadata.name == n)) [
  | inl k ↦ cc (rw e at (subst (λ x. read x (s x) ≡ ok o) (sym (str_eq→eq p.metadata.name n k)) h))
  | inr k ↦ rw k h
]

make-new :
    (s : Objects) (p c : ClusterProfile) (m : Option ClusterProfile)
    → s p.metadata.name ≡ m
    → (make s p m).1 ≡ ok c
    → ((o : ClusterProfile) → read p.metadata.name (s p.metadata.name) ≢ ok o)
      × (read p.metadata.name ((make s p m).0 p.metadata.name) ≡ ok c)
      × HasSpecOf p c
make-new s p c (some q) e h = cc
make-new s p c none e h =
    let same : p ≡ c = cc in
    (
      (λ o k. cc (rw e at k)),
      rw (eq_refl p.metadata.name) (ap ok same),
      subst (HasSpecOf p) same (record { spec = refl; labels = refl }),
    )

write-other :
    (s : Objects) (p : ClusterProfile) (n : String) (m : Option ClusterProfile)
    → n ≢ p.metadata.name
    → read n ((write s p m).0 n) ≡ read n (s n)
write-other s p n none h = refl
write-other s p n (some o) h =
    ap (read n) (put-other s p.metadata.name n (record o { status = p.status }) (λ e. h (sym e)))

write-same :
    (s : Objects) (p o : ClusterProfile) (m : Option ClusterProfile)
    → s p.metadata.name ≡ m
    → (write s p m).1 ≡ ok tt
    → read p.metadata.name (s p.metadata.name) ≡ ok o
    → (o' : ClusterProfile) × (read p.metadata.name ((write s p m).0 p.metadata.name) ≡ ok o')
      × HasSpecOf o o'
      × (o'.status ≡ p.status)
write-same s p o none e h k = cc
write-same s p o (some q) e h k =
    let same : named p.metadata.name q ≡ o = cc (rw e at k) in
    (
      named p.metadata.name (record q { status = p.status }),
      rw (eq_refl p.metadata.name) refl,
      subst (λ x. HasSpecOf x (named p.metadata.name (record q { status = p.status }))) same
          (record { spec = refl; labels = refl }),
      refl,
    )

pub memory-IsLawful : IsLawful memory
memory-IsLawful = record {
  namespace-get = λ s n. refl;
  get-named = λ s n o h. read-named n (s n) o h;
  create-other = λ s p n o h. make-other s p n o (s p.metadata.name) refl h;
  create-new = λ s p c h. make-new s p c (s p.metadata.name) refl h;
  update-other = λ s p n h. write-other s p n (s p.metadata.name) h;
  update-same = λ s p o h k. write-same s p o (s p.metadata.name) refl h k;
}
