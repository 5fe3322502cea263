-- ===== src/Access/Accessor.antt =====
-- Which access provider of a ClusterProfile a configuration uses.
use cluster_inventory_api.Common.{
  ◌≡◌, ◌≢◌, refl, ap, inl, inr, String, Bool-cases, List, [], ◌∷◌, ◌++◌, Option, Option-cases, none,
  some, ◌==◌, All, str_eq→eq, str_eq→ne, subst,
}
use cluster_inventory_api.Apis.{ClusterProfile, AccessProvider}
use cluster_inventory_api.Access.{Provider, Config}
use cluster_inventory_api.Access.Build.{last_of_name, first_supported, get_cluster_accessor}

-- No access provider has the name.
abbrev pub Lacks : String → List AccessProvider → Type 0
Lacks name = All (λ (a : AccessProvider). a.name ≢ name)

-- `a` has the name, and no access provider behind it has.
pub record IsLast (name : String) (accessors : List AccessProvider) (a : AccessProvider)
    : Type 0 where
  pub named : a.name ≡ name
  pub front : List AccessProvider
  pub back : List AccessProvider
  pub split : accessors ≡ front ++ a ∷ back
  pub newest : Lacks name back

abbrev LastMeans : String → List AccessProvider → Option AccessProvider → Type 0
LastMeans name accessors none = Lacks name accessors
LastMeans name accessors (some a) = IsLast name accessors a

last_of_name-LastMeans :
    (name : String) (accessors : List AccessProvider)
    → LastMeans name accessors (last_of_name name accessors)
unfolding last_of_name
last_of_name-LastMeans name [] = tt
last_of_name-LastMeans name (a ∷ rest) =
    let ih = last_of_name-LastMeans name rest in
    elim (Option-cases (last_of_name name rest)) [
      | inr (found, e) ↦
          let last = subst (LastMeans name rest) e ih in
          rw (last_of_name, e)
            (record {
              named = last.named;
              front = a ∷ last.front;
              back = last.back;
              split = ap (λ l. a ∷ l) last.split;
              newest = last.newest;
            })
      | inl e ↦
          let absent = subst (LastMeans name rest) e ih in
          elim (Bool-cases (a.name == name)) [
            | inl k ↦
                rw (last_of_name, e, k)
                  (record {
                    named = str_eq→eq a.name name k;
                    front = [];
                    back = rest;
                    split = refl;
                    newest = absent;
                  })
            | inr k ↦ rw (last_of_name, e, k) (str_eq→ne a.name name k, absent)
          ]
    ]

-- `p` is the first of the providers with a name that an access provider has.
pub record IsChosen (providers : List Provider) (accessors : List AccessProvider)
    (a : AccessProvider) : Type 0 where
  pub provider : Provider
  pub before : List Provider
  pub after : List Provider
  pub split : providers ≡ before ++ provider ∷ after
  pub unmatched : All (λ (p : Provider). Lacks p.name accessors) before
  pub last : IsLast provider.name accessors a

-- No provider has the name of an access provider; or the choice is made.
abbrev pub AccessorMeans : List Provider → List AccessProvider → Option AccessProvider → Type 0
AccessorMeans providers accessors none = All (λ (p : Provider). Lacks p.name accessors) providers
AccessorMeans providers accessors (some a) = IsChosen providers accessors a

AccessorMeans-later :
    (p : Provider) (rest : List Provider) (accessors : List AccessProvider)
    (m : Option AccessProvider)
    → Lacks p.name accessors
    → AccessorMeans rest accessors m
    → AccessorMeans (p ∷ rest) accessors m
AccessorMeans-later p rest accessors none h k = (h, k)
AccessorMeans-later p rest accessors (some a) h k = record {
  provider = k.provider;
  before = p ∷ k.before;
  after = k.after;
  split = ap (λ l. p ∷ l) k.split;
  unmatched = (h, k.unmatched);
  last = k.last;
}

first_supported-AccessorMeans :
    (providers : List Provider) (accessors : List AccessProvider)
    → AccessorMeans providers accessors (first_supported providers accessors)
unfolding first_supported
first_supported-AccessorMeans [] accessors = tt
first_supported-AccessorMeans (p ∷ rest) accessors =
    let here = last_of_name-LastMeans p.name accessors in
    elim (Option-cases (last_of_name p.name accessors)) [
      | inr (found, e) ↦
          rw (first_supported, e)
            (record {
              provider = p;
              before = [];
              after = rest;
              split = refl;
              unmatched = tt;
              last = subst (LastMeans p.name accessors) e here;
            })
      | inl e ↦
          rw (first_supported, e)
            (AccessorMeans-later p rest accessors (first_supported rest accessors)
              (subst (LastMeans p.name accessors) e here)
              (first_supported-AccessorMeans rest accessors))
    ]

-- The access provider used is the profile's last with the name of the first provider of the
-- configuration that matches one at all; none is used only where no provider matches.
pub get_cluster_accessor-AccessorMeans :
    (c : Config) (cp : ClusterProfile)
    → AccessorMeans c.providers cp.status.access_providers (get_cluster_accessor c cp)
unfolding get_cluster_accessor
get_cluster_accessor-AccessorMeans c cp =
    first_supported-AccessorMeans c.providers cp.status.access_providers
