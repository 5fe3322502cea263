-- ===== src/Conformance/Report/Metadata.antt =====
-- The metadata of a submission: validURL and validateMetadata of conformance/report.go.
use Prim.Native.Char.{code}
use cluster_inventory_api.Common.{
  ℕ, zero, suc, String, Bool, true, false, not, ◌&&◌, ◌||◌, List, [], ◌∷◌, ◌++◌, Option, none, some,
  ◌==◌, leb, if◌then◌else◌, is_empty, is_blank, Fallible, reject_if,
}
use cluster_inventory_api.Conformance.Types.{Source, ConformanceReport}
use cluster_inventory_api.Conformance.Errors.{
  MetadataFault, required, short_revision, unclean, bad_url, bad_reproduction, no_contact,
  empty_contact, Error, metadata_faults,
}
use cluster_inventory_api.Conformance.Platform.{Platform, Url}

abbrev pub Verified : Type 0
Verified = Fallible Error (Unit {0})

-- The commit pattern from a place on: so many characters 0-9 or a-f, and the end.
is_hex_run : ℕ → String → Bool
is_hex_run zero String.[] = true
is_hex_run zero (String.◌∷◌ c s) = false
is_hex_run (suc n) String.[] = false
is_hex_run (suc n) (String.◌∷◌ c s) =
    (leb 48 (code c) && leb (code c) 57 || leb 97 (code c) && leb (code c) 102) && is_hex_run n s

unfoldable pub is_commit : String → Bool
unfolding is_hex_run
is_commit s = is_hex_run 40 s

abbrev is_web_url : Option Url → Bool
is_web_url none = false
is_web_url (some u) = (u.scheme == "http" || u.scheme == "https") && not (u.host == "")

unfoldable pub valid_url : Platform → String → Bool
valid_url p s = is_web_url (p.parse_url s)

-- if test { errs = append(errs, fault) }
abbrev pub fault_if : Bool → MetadataFault → List MetadataFault
fault_if test fault = if test then fault ∷ [] else []

unfoldable pub source_faults : String → Source → List MetadataFault
unfolding is_commit
source_faults name source =
    fault_if (not (is_commit source.revision)) (short_revision name)
    ++ fault_if source.dirty (unclean name)

unfoldable pub contact_faults : List String → List MetadataFault
contact_faults [] = []
contact_faults (contact ∷ rest) = fault_if (is_blank contact) empty_contact ++ contact_faults rest

unfoldable pub metadata_list : Platform → ConformanceReport → List MetadataFault
unfolding source_faults contact_faults valid_url
metadata_list p r =
    let i = r.implementation in
    fault_if (is_blank i.mode) (required "implementation.mode")
    ++ fault_if (is_blank i.organization) (required "implementation.organization")
    ++ fault_if (is_blank i.project) (required "implementation.project")
    ++ fault_if (is_blank i.source.version) (required "implementation.version")
    ++ fault_if (is_blank r.suite.source.version) (required "suite.version")
    ++ source_faults "implementation" i.source
    ++ source_faults "suite" r.suite.source
    ++ fault_if (not (valid_url p i.url)) bad_url
    ++ fault_if (not (valid_url p i.reproduction)) bad_reproduction
    ++ fault_if (is_empty i.contact) no_contact
    ++ contact_faults i.contact

unfoldable pub validate_metadata : Platform → ConformanceReport → Verified
validate_metadata p r =
    let faults = metadata_list p r in reject_if (not (is_empty faults)) (metadata_faults faults)
