-- ===== src/Conformance/Suite/Reasons.antt =====
-- The texts of the errors that end a set-up early.
use cluster_inventory_api.Common.{
  String, ◌≡◌, refl, Bool, Bool-cases, inl, inr, true, false, not, ◌&&◌, List, [], ◌∷◌, map, Option,
  none, some, is_empty, has_ink, is_space, ink_here, ink_later, concat, join, ok, err, ◌>>◌,
  reject_if,
}
use cluster_inventory_api.Conformance.Errors.{
  MetadataFault, required, short_revision, unclean, bad_url, bad_reproduction, no_contact,
  empty_contact, metadata_text, metadata_faults, error_text, run_text, run_fault, invalid_filter,
}
use cluster_inventory_api.Conformance.Types.{ConformanceReport}
use cluster_inventory_api.Conformance.Checks.{ApiError}
use cluster_inventory_api.Conformance.Platform.{Platform}
use cluster_inventory_api.Conformance.Report.{Verified, metadata_list, validate_metadata}
use cluster_inventory_api.Conformance.Suite.{
  World, client_error, fault_check, unless, connect, namespace_check,
}

-- The errors of the clients and of the deadline say something.
pub record Speaks (w : World) : Type 0 where
  pub kubernetes : (t : String) → w.kubernetes_fault ≡ some t → has_ink t ≡ true
  pub inventory : (t : String) → w.inventory_fault ≡ some t → has_ink t ≡ true
  pub deadline : (t : String) → w.deadline ≡ some t → has_ink t ≡ true

-- If the check fails, then with an error that says something.
abbrev pub Explains : Verified → Type 0
Explains (ok u) = Unit
Explains (err e) = has_ink (error_text e) ≡ true

client_error-ink :
    (text : String) → has_ink text ≡ true → has_ink (error_text (client_error text)) ≡ true
unfolding error_text run_text
client_error-ink text h = h

pub invalid_filter-ink :
    (text : String) → has_ink (error_text (run_fault (invalid_filter text))) ≡ true
unfolding error_text run_text has_ink is_space
invalid_filter-ink text = ink_here "invalid test filter: " (text ∷ []) refl

metadata_text-ink : (f : MetadataFault) → has_ink (metadata_text f) ≡ true
unfolding metadata_text has_ink is_space
metadata_text-ink (required name) = ink_later name _ (ink_here " is required" [] refl)
metadata_text-ink (short_revision name) =
    ink_later name _ (ink_here ".revision must be a full source commit" [] refl)
metadata_text-ink (unclean name) =
    ink_later name _ (ink_here " source must be clean for submission" [] refl)
metadata_text-ink bad_url = refl
metadata_text-ink bad_reproduction =
    ink_here "implementation.reproduction must identify a reproducible source artifact " _ refl
metadata_text-ink no_contact = refl
metadata_text-ink empty_contact = refl

join-ink :
    (f : MetadataFault) (fs : List MetadataFault)
    → has_ink (join "\n" (map metadata_text (f ∷ fs))) ≡ true
unfolding join
join-ink f [] = metadata_text-ink f
join-ink f (g ∷ fs) = ink_here (metadata_text f) _ (metadata_text-ink f)

faults-Explains :
    (fs : List MetadataFault) → Explains (reject_if (not (is_empty fs)) (metadata_faults fs))
unfolding error_text
faults-Explains [] = tt
faults-Explains (f ∷ fs) = join-ink f fs

pub validate_metadata-Explains :
    (p : Platform) (r : ConformanceReport) → Explains (validate_metadata p r)
unfolding validate_metadata
validate_metadata-Explains p r = faults-Explains (metadata_list p r)

pub fault_check-Explains :
    (fault : Option String)
    → ((t : String) → fault ≡ some t → has_ink t ≡ true)
    → Explains (fault_check fault client_error)
fault_check-Explains none h = tt
fault_check-Explains (some t) h = client_error-ink t (h t refl)

load_check-Explains :
    (fault : Option String)
    → Explains (fault_check fault (λ text. client_error (concat ("load kubeconfig: " ∷ text ∷ []))))
unfolding has_ink is_space
load_check-Explains none = tt
load_check-Explains (some t) =
    client_error-ink (concat ("load kubeconfig: " ∷ t ∷ []))
      (ink_here "load kubeconfig: " (t ∷ []) refl)

unless-Explains : (test : Bool) (m : Verified) → Explains m → Explains (unless test m)
unless-Explains true m h = tt
unless-Explains false m h = h

next-Explains : (m k : Verified) → Explains m → Explains k → Explains (m >> k)
next-Explains (ok u) k p q = q
next-Explains (err e) k p q = p

pub connect-Explains : (w : World) → Speaks w → Explains (connect w)
unfolding connect
connect-Explains w s = elim (Bool-cases (w.has_kubernetes && w.has_inventory)) [
  | inl e ↦ rw e tt
  | inr e ↦ rw e (
      next-Explains _ _ (unless-Explains w.has_config _ (load_check-Explains w.load_fault)) (
        next-Explains _ _
          (unless-Explains w.has_kubernetes _
            (fault_check-Explains w.kubernetes_fault s.kubernetes))
          (unless-Explains w.has_inventory _ (fault_check-Explains w.inventory_fault s.inventory))))
]

pub namespace_check-Explains :
    (namespace : String) (fault : Option ApiError) → Explains (namespace_check namespace fault)
unfolding error_text run_text has_ink is_space
namespace_check-Explains namespace none = tt
namespace_check-Explains namespace (some e) = elim (Bool-cases e.forbidden) [
  | inl k ↦ rw k tt
  | inr k ↦ rw k (ink_here "read inventory namespace " _ refl)
]
