-- ===== src/Conformance/Files/Atomic.antt =====
-- The states of a report's file on the way through atomicWrite of conformance/report.go.
use cluster_inventory_api.Common.{
  ◌≡◌, ◌≢◌, ◌⊎◌, ◌∙◌, refl, inl, inr, String, List, [], ◌∷◌, ◌++◌, Option, Option-cases, none, some,
  All, All-append, Fallible, ok, err, eq_refl, ne→str_eq,
}
use cluster_inventory_api.Conformance.Files.{
  Files, update, WriteResult, complete, torn, Attempt, Ending, error_list, landed_text,
  write_errors, remove_temp, renamed, publish, write_temp, atomic_write,
}

-- The path holds what it held, or the whole new text.
abbrev pub IsIntact : Files → String → String → Files → Type 0
IsIntact old path text now = (now path ≡ old path) ⊎ (now path ≡ some text)

-- Either there is no error and the path holds the new text, or there is one and it holds the old.
abbrev pub IsDecided : Files → String → String → Ending → Type 0
IsDecided old path text end =
    ((end.errors ≡ []) × (end.files path ≡ some text))
    ⊎ ((end.errors ≢ []) × (end.files path ≡ old path))

update-other :
    (files : Files) (p q : String) (content : Option String)
    → p ≢ q
    → update files p content q ≡ files q
update-other files p q content h = rw (ne→str_eq p q h) refl

-- What holds of the end of a write of `text` to `path`.
pub record IsAtomic (old : Files) (path text : String) (end : Ending) : Type 0 where
  pub intact : All (λ now. IsIntact old path text now) end.trace
  pub decided : IsDecided old path text end
  pub last : IsIntact old path text end.files

module _ (old : Files) (path text temp : String) (apart : temp ≢ path) where
  untouched :
      (files : Files) (content : Option String)
      → files path ≡ old path
      → update files temp content path ≡ old path
  untouched files content h = update-other files temp path content apart ∙ h

  -- The end of a call that fails: the temporary file may or may not be removed.
  remove_temp-failed :
      (answer : Option String) (before : List Files) (files : Files) (e : String) (es : List String)
      → All (λ now. IsIntact old path text now) before
      → files path ≡ old path
      → IsAtomic old path text (remove_temp answer temp before files (e ∷ es))
  remove_temp-failed answer before files e es h k = elim (Option-cases (files temp)) [
    | inl n ↦
        rw (remove_temp, n)
          (record {
            intact = All-append _ before _ h (inl k, tt);
            decided = inr ((λ x. cc), k);
            last = inl k;
          })
    | inr (content, n) ↦ rw (remove_temp, n) (removing answer)
  ]
    where
      removing :
          (answer : Option String)
          → IsAtomic old path text (elim answer [
            | none ↦ record {
              trace = before ++ files ∷ update files temp none ∷ [];
              files = update files temp none;
              errors = e ∷ es;
            }
            | some x ↦ record {
              trace = before ++ files ∷ [];
              files = files;
              errors = (e ∷ es) ++ x ∷ [];
            }
          ])
      removing none =
          let gone = untouched files none k in
          record {
            intact = All-append _ before _ h (inl k, (inl gone, tt));
            decided = inr ((λ x. cc), gone);
            last = inl gone;
          }
      removing (some x) = record {
        intact = All-append _ before _ h (inl k, tt);
        decided = inr ((λ x. cc), k);
        last = inl k;
      }

  renamed_temp : (files : Files) → renamed temp path files temp ≡ none
  renamed_temp files = rw (eq_refl temp) refl

  renamed_path : (files : Files) → renamed temp path files path ≡ files temp
  renamed_path files = rw (ne→str_eq temp path apart, eq_refl path) refl

  publish-IsAtomic :
      (remove : Option String) (before : List Files) (written : Files) (early : List String)
      (chmod rename : Option String)
      → All (λ now. IsIntact old path text now) before
      → written path ≡ old path
      → (early ≡ [] → written temp ≡ some text)
      → IsAtomic old path text (publish remove temp path before written early chmod rename)
  publish-IsAtomic remove before written (e ∷ rest) chmod rename h k full =
      remove_temp-failed remove before written e rest h k
  publish-IsAtomic remove before written [] (some e) rename h k full =
      remove_temp-failed remove before written e [] h k
  publish-IsAtomic remove before written [] none (some e) h k full =
      remove_temp-failed remove before written e [] h k
  publish-IsAtomic remove before written [] none none h k full =
      let new = renamed_path written ∙ full refl in
      rw (remove_temp, renamed_temp written)
        (record {
          intact =
              All-append _ (before ++ written ∷ []) _ (All-append _ before _ h (inl k, tt))
                (inr new, tt);
          decided = inl (refl, new);
          last = inr new;
        })

-- However the calls of the operating system end, every state that a write goes through, so that of a
-- crash too, has the old content at the path or the whole new text; the write reports no error
-- exactly where it leaves the new text there, and else it leaves the old content.
pub atomic_write-IsAtomic :
    (a : Attempt) (path text : String) (files : Files)
    → ((temp : String) → a.created ≡ ok temp → temp ≢ path)
    → IsAtomic files path text (atomic_write a path text files)
unfolding atomic_write
atomic_write-IsAtomic a path text files apart = created a.created apart
  where
    written_text :
        (temp : String) (w : WriteResult) (more : List String)
        → write_errors w ++ more ≡ []
        → update files temp (some (landed_text w text)) temp ≡ some text
    written_text temp complete more h = rw (eq_refl temp) refl
    written_text temp (torn part cause) more h = cc

    created :
        (m : Fallible String String)
        → ((temp : String) → m ≡ ok temp → temp ≢ path)
        → IsAtomic files path text (write_temp a path text files m)
    created (err e) apart = record {
      intact = (inl refl, tt);
      decided = inr ((λ x. cc), refl);
      last = inl refl;
    }
    created (ok temp) apart =
        let ne = apart temp refl in
        publish-IsAtomic files path text temp ne a.remove (files ∷ update files temp (some "") ∷ [])
          (update files temp (some (landed_text a.write text)))
          (write_errors a.write ++ error_list a.close) a.chmod a.rename
          (inl refl, (inl (update-other files temp path (some "") ne), tt))
          (update-other files temp path _ ne) (written_text temp a.write (error_list a.close))

module _ (path q temp : String) (other : path ≢ q) (apart : temp ≢ q) where
  remove_temp-other :
      (answer : Option String) (before : List Files) (files : Files) (es : List String)
      → (remove_temp answer temp before files es).files q ≡ files q
  remove_temp-other answer before files es = elim (Option-cases (files temp)) [
    | inl n ↦ rw (remove_temp, n) refl
    | inr (content, n) ↦ elim (Option-cases answer) [
      | inl k ↦ rw (remove_temp, n, k) (update-other files temp q none apart)
      | inr (x, k) ↦ rw (remove_temp, n, k) refl
    ]
  ]

  publish-other :
      (remove : Option String) (before : List Files) (written : Files) (early : List String)
      (chmod rename : Option String)
      → (publish remove temp path before written early chmod rename).files q ≡ written q
  publish-other remove before written (e ∷ rest) chmod rename =
      remove_temp-other remove before written (e ∷ rest)
  publish-other remove before written [] (some e) rename =
      remove_temp-other remove before written (e ∷ [])
  publish-other remove before written [] none (some e) =
      remove_temp-other remove before written (e ∷ [])
  publish-other remove before written [] none none =
      remove_temp-other remove (before ++ written ∷ []) (renamed temp path written) []
      ∙ update-other (update written path (written temp)) temp q none apart
      ∙ update-other written path q (written temp) other

-- A write leaves every other file alone.
pub atomic_write-other :
    (a : Attempt) (path text : String) (files : Files) (q : String)
    → path ≢ q
    → ((temp : String) → a.created ≡ ok temp → temp ≢ q)
    → (atomic_write a path text files).files q ≡ files q
unfolding atomic_write
atomic_write-other a path text files q other apart = created a.created apart
  where
    created :
        (m : Fallible String String)
        → ((temp : String) → m ≡ ok temp → temp ≢ q)
        → (write_temp a path text files m).files q ≡ files q
    created (err e) apart = refl
    created (ok temp) apart =
        publish-other path q temp other (apart temp refl) a.remove
          (files ∷ update files temp (some "") ∷ [])
          (update files temp (some (landed_text a.write text)))
          (write_errors a.write ++ error_list a.close) a.chmod a.rename
        ∙ update-other files temp q _ (apart temp refl)
