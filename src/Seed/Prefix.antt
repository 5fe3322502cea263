-- ===== src/Seed/Prefix.antt =====
-- The prefix of the seeded names: its length and its characters.
use Prim.Native.Char.{Char}
use cluster_inventory_api.Common.{
  ℕ, zero, suc, ◌≤◌, ◌≡◌, ◌≢◌, refl, inl, inr, String, Bool, Bool-cases, true, false, ◌&&◌, ◌==◌,
  if◌then◌else◌, arith, str_eq→ne, and_split,
}
use cluster_inventory_api.Seed.{
  is_safe, is_dash, dashed, cut, trim_left_dashes, keep_unless_last, trim_right_dashes,
  object_name_prefix,
}

abbrev pub text_length : String → ℕ
text_length String.[] = 0
text_length (String.◌∷◌ c s) = suc (text_length s)

abbrev pub all_safe : String → Bool
all_safe String.[] = true
all_safe (String.◌∷◌ c s) = is_safe c && all_safe s

abbrev pub starts_with_dash : String → Bool
starts_with_dash String.[] = false
starts_with_dash (String.◌∷◌ c s) = is_dash c

abbrev pub ends_with_dash : String → Bool
ends_with_dash String.[] = false
ends_with_dash (String.◌∷◌ c s) = if s == "" then is_dash c else ends_with_dash s

dashed-all_safe : (s : String) → all_safe (dashed s) ≡ true
unfolding dashed
dashed-all_safe String.[] = refl
dashed-all_safe (String.◌∷◌ c s) = elim (Bool-cases (is_safe c)) [
  | inl e ↦ rw (e, e) (dashed-all_safe s)
  | inr e ↦ rw e (dashed-all_safe s)
]

cut-all_safe : (n : ℕ) (s : String) → all_safe s ≡ true → all_safe (cut n s) ≡ true
unfolding cut
cut-all_safe zero s h = refl
cut-all_safe (suc n) String.[] h = refl
cut-all_safe (suc n) (String.◌∷◌ c s) h = let k = cut-all_safe n s (ground arith) in ground arith

cut-text_length : (n : ℕ) (s : String) → text_length (cut n s) ≤ n
unfolding cut
cut-text_length zero s = omega arith
cut-text_length (suc n) String.[] = omega arith
cut-text_length (suc n) (String.◌∷◌ c s) = omega (arith, cut-text_length n s)

-- A text of safe characters, no longer than a bound, that does not start with a dash.
record IsClean (n : ℕ) (s : String) : Type 0 where
  safe : all_safe s ≡ true
  short : text_length s ≤ n
  started : starts_with_dash s ≡ false

trim_left_dashes-IsClean :
    (n : ℕ) (s : String) → all_safe s ≡ true → text_length s ≤ n → IsClean n (trim_left_dashes s)
unfolding trim_left_dashes
trim_left_dashes-IsClean n String.[] h k = record { safe = refl; short = k; started = refl }
trim_left_dashes-IsClean n (String.◌∷◌ c s) h k = elim (Bool-cases (is_dash c)) [
  | inl e ↦ rw (trim_left_dashes, e) (trim_left_dashes-IsClean n s (ground arith) (omega arith))
  | inr e ↦ rw (trim_left_dashes, e) (record { safe = h; short = k; started = e })
]

keep_unless_last-all_safe :
    (c : Char) (rest : String)
    → is_safe c ≡ true
    → all_safe rest ≡ true
    → all_safe (keep_unless_last c rest) ≡ true
keep_unless_last-all_safe c rest h k = elim (Bool-cases (is_dash c && rest == "")) [
  | inl e ↦ rw e refl
  | inr e ↦ rw (e, h) k
]

keep_unless_last-text_length :
    (c : Char) (rest : String) → text_length (keep_unless_last c rest) ≤ suc (text_length rest)
keep_unless_last-text_length c rest = elim (Bool-cases (is_dash c && rest == "")) [
  | inl e ↦ rw e (omega arith)
  | inr e ↦ rw e (omega arith)
]

keep_unless_last-starts :
    (c : Char) (rest : String)
    → is_dash c ≡ false
    → starts_with_dash (keep_unless_last c rest) ≡ false
keep_unless_last-starts c rest h = rw (h, h) refl

keep_unless_last-ends :
    (c : Char) (rest : String)
    → ends_with_dash rest ≡ false
    → ends_with_dash (keep_unless_last c rest) ≡ false
keep_unless_last-ends c rest h = elim (Bool-cases (rest == "")) [
  | inl e ↦ elim (Bool-cases (is_dash c)) [ inl k ↦ rw (k, e) refl | inr k ↦ rw (k, e, k) refl ]
  | inr e ↦ elim (Bool-cases (is_dash c)) [ inl k ↦ rw (k, e, e) h | inr k ↦ rw (k, e) h ]
]

trim_right_dashes-all_safe :
    (s : String) → all_safe s ≡ true → all_safe (trim_right_dashes s) ≡ true
unfolding trim_right_dashes
trim_right_dashes-all_safe String.[] h = refl
trim_right_dashes-all_safe (String.◌∷◌ c s) h =
    let (a, b) = and_split (is_safe c) (all_safe s) h in
    keep_unless_last-all_safe c (trim_right_dashes s) a (trim_right_dashes-all_safe s b)

trim_right_dashes-text_length : (s : String) → text_length (trim_right_dashes s) ≤ text_length s
unfolding trim_right_dashes
trim_right_dashes-text_length String.[] = omega arith
trim_right_dashes-text_length (String.◌∷◌ c s) =
    omega
      (arith, keep_unless_last-text_length c (trim_right_dashes s), trim_right_dashes-text_length s)

trim_right_dashes-starts :
    (s : String) → starts_with_dash s ≡ false → starts_with_dash (trim_right_dashes s) ≡ false
unfolding trim_right_dashes
trim_right_dashes-starts String.[] h = refl
trim_right_dashes-starts (String.◌∷◌ c s) h = keep_unless_last-starts c (trim_right_dashes s) h

trim_right_dashes-ends : (s : String) → ends_with_dash (trim_right_dashes s) ≡ false
unfolding trim_right_dashes
trim_right_dashes-ends String.[] = refl
trim_right_dashes-ends (String.◌∷◌ c s) =
    keep_unless_last-ends c (trim_right_dashes s) (trim_right_dashes-ends s)

-- A label of at most so many safe characters, with no dash at either end.
pub record IsLabel (n : ℕ) (s : String) : Type 0 where
  pub filled : s ≢ ""
  pub safe : all_safe s ≡ true
  pub short : text_length s ≤ n
  pub started : starts_with_dash s ≡ false
  pub ended : ends_with_dash s ≡ false

or_default-IsLabel :
    (s : String)
    → all_safe s ≡ true
    → text_length s ≤ 40
    → starts_with_dash s ≡ false
    → ends_with_dash s ≡ false
    → IsLabel 40 (if s == "" then "cluster-manager" else s)
or_default-IsLabel s safe short started ended = elim (Bool-cases (s == "")) [
  | inl e ↦
      rw e (record {
        filled = λ h. cc;
        safe = refl;
        short = omega arith;
        started = refl;
        ended = refl;
      })
  | inr e ↦ rw e (record {
    filled = str_eq→ne s "" e;
    safe = safe;
    short = short;
    started = started;
    ended = ended;
  })
]

-- Whatever the manager is called, and however its name is lowered, the prefix is not empty, has at
-- most 40 characters, all of them a to z, 0 to 9 or dashes, and has no dash at either end.
pub object_name_prefix-IsLabel :
    (lower : String → String) (manager : String) → IsLabel 40 (object_name_prefix lower manager)
unfolding object_name_prefix
object_name_prefix-IsLabel lower manager =
    let bounded = cut 40 (dashed (lower manager)) in
    let clean =
      trim_left_dashes-IsClean 40 bounded
        (cut-all_safe 40 (dashed (lower manager)) (dashed-all_safe (lower manager)))
        (cut-text_length 40 (dashed (lower manager))) in
    let left = trim_left_dashes bounded in
    or_default-IsLabel (trim_right_dashes left) (trim_right_dashes-all_safe left clean.safe)
      (omega (arith, clean.short, trim_right_dashes-text_length left))
      (trim_right_dashes-starts left clean.started) (trim_right_dashes-ends left)
