-- ===== src/PathSafety/BinName.antt =====
-- `validate_bin_name` of path_safety.rs: what it returns is one portable file name.
use bpm.Prelude.{
  length, length-append, ◌≤◌, ℕ, ◌≡◌, ◌↔◌, refl, ap, sym, ◌∙◌, Bool, true, false, ◌&&◌, ◌||◌, [],
  ◌∷◌, ◌++◌, all, any, arith, inl, inr, ok, Bool-cases,
}
use bpm.Prelude.Text.{Text, txt, text_eq, text_eq_ne, is_empty, contains, trim_end}
use bpm.Prelude.TextLaws.{contains-append}
use bpm.PathSafety.{is_device_name, is_control, is_dot_or_space, validate_bin_name}

module _ (p : ℕ → Bool) where
  trim_end-suffix : (s : Text) → (t : Text) × (s ≡ trim_end p s ++ t) × (all p t ≡ true)
  unfolding trim_end
  trim_end-suffix [] = ([], refl, refl)
  trim_end-suffix (c ∷ s) =
      let (t, e, h) = trim_end-suffix s in
      elim (Bool-cases (p c && is_empty (trim_end p s))) [
        | inl gone ↦ (c ∷ s, rw gone, ground (arith, e, h))
        | inr kept ↦ (t, rw kept (ap (λ r. c ∷ r) e), h)
      ]

  trim_end_idem : (s : Text) → trim_end p (trim_end p s) ≡ trim_end p s
  unfolding trim_end
  trim_end_idem [] = refl
  trim_end_idem (c ∷ s) = ground (arith, trim_end_idem s)

  trim_end-snoc : (s : Text) (c : ℕ) → p c ≡ true → trim_end p (s ++ c ∷ []) ≡ trim_end p s
  unfolding trim_end
  trim_end-snoc [] c h = ground arith
  trim_end-snoc (d ∷ s) c h = ground (arith, trim_end-snoc s c h)

  length-trim_end : (s : Text) → length (trim_end p s) ≤ length s
  unfolding trim_end
  length-trim_end [] = omega arith
  length-trim_end (d ∷ s) = ground (arith, length-trim_end s)

  -- what is trimmed ends in no trimmed character
  last-kept : (t s : Text) (c : ℕ) → trim_end p t ≡ t → t ≡ s ++ c ∷ [] → p c ≡ false
  last-kept t s c h e = elim (Bool-cases (p c)) [
    | inl bad ↦ absurd (
        omega (
          arith,
          ap length h,
          ap length e,
          ap (λ x. length (trim_end p x)) e,
          ap length (trim_end-snoc s c bad),
          length-trim_end s,
          length-append s (c ∷ []),
        ))
    | inr good ↦ good
  ]

any-append : (p : ℕ → Bool) (s t : Text) → any p (s ++ t) ≡ (any p s || any p t)
any-append p [] t = refl
any-append p (c ∷ s) t = ground (arith, any-append p s t)

-- One file name that every supported system takes: not empty, no separator, colon or control
-- character, no dot or space at the end, and no device name in any case of letters.
pub record IsPortable (name : Text) : Type 0 where
  pub not_empty : is_empty name ≡ false
  pub no_slash : contains b'/' name ≡ false
  pub no_backslash : contains b'\\' name ≡ false
  pub no_colon : contains b':' name ≡ false
  pub no_control : any is_control name ≡ false
  pub last : (before : Text) (c : ℕ) → name ≡ before ++ c ∷ [] → is_dot_or_space c ≡ false
  pub no_device : is_device_name name ≡ false

module _ (name t : Text) (accepted : validate_bin_name name ≡ ok t) where
  trimmed_is : t ≡ trim_end is_dot_or_space name
  unfolding validate_bin_name
  trimmed_is = ground arith

  name_tests :
      (contains b'/' name ≡ false)
      × (contains b'\\' name ≡ false)
      × (contains b':' name ≡ false)
      × (any is_control name ≡ false)
  unfolding validate_bin_name
  name_tests = (ground arith, ground arith, ground arith, ground arith)

  trimmed_tests :
      (is_empty (trim_end is_dot_or_space name) ≡ false)
      × (is_device_name (trim_end is_dot_or_space name) ≡ false)
  unfolding validate_bin_name
  trimmed_tests = (ground arith, ground arith)

  -- A name that `validate_bin_name` returns is portable, and is the given name without some dots
  -- and spaces at its end.
  pub validate_bin_name_sound :
      IsPortable t × ((tail : Text) × (name ≡ t ++ tail) × (all is_dot_or_space tail ≡ true))
  validate_bin_name_sound =
      let (tail, e, spaces) = trim_end-suffix is_dot_or_space name in
      let split_name : name ≡ t ++ tail = rw trimmed_is e in
      let part = λ (c : ℕ). contains-append c t tail in
      (
        record {
          not_empty = rw trimmed_is trimmed_tests.0;
          no_slash = free b'/' tail split_name name_tests.0;
          no_backslash = free b'\\' tail split_name name_tests.1;
          no_colon = free b':' tail split_name name_tests.2;
          no_control = ground (arith, any-append is_control t tail, name_tests.3, split_name);
          last = λ before c.
              last-kept is_dot_or_space t before c
                (rw trimmed_is (trim_end_idem is_dot_or_space name));
          no_device = rw trimmed_is trimmed_tests.1;
        },
        (tail, split_name, spaces),
      )
    where
      free :
          (c : ℕ) (tail : Text) → name ≡ t ++ tail → contains c name ≡ false → contains c t ≡ false
      free c tail e h = ground (arith, contains-append c t tail, e, h)

trim_end-kept :
    (p : ℕ → Bool) (t : Text)
    → ((before : Text) (c : ℕ) → t ≡ before ++ c ∷ [] → p c ≡ false)
    → trim_end p t ≡ t
unfolding trim_end
trim_end-kept p [] last = refl
trim_end-kept p (c ∷ []) last = ground (arith, last [] c refl)
trim_end-kept p (c ∷ d ∷ s) last =
    ground (arith, trim_end-kept p (d ∷ s) (λ before x e. last (c ∷ before) x (ap (λ r. c ∷ r) e)))

not_dots :
    (t : Text)
    → ((before : Text) (c : ℕ) → t ≡ before ++ c ∷ [] → is_dot_or_space c ≡ false)
    → (text_eq t (txt ".") ≡ false) × (text_eq t (txt "..") ≡ false)
unfolding is_dot_or_space
not_dots t last = (
  text_eq_ne t (txt ".") (λ e. cc (last [] b'.' e)),
  text_eq_ne t (txt "..") (λ e. cc (last (txt ".") b'.' e)),
)

-- Every portable name is accepted unchanged, so `validate_bin_name` accepts its own results.
pub validate_bin_name_portable : (t : Text) → IsPortable t → validate_bin_name t ≡ ok t
unfolding validate_bin_name
validate_bin_name_portable t n =
    ground (arith, trim_end-kept is_dot_or_space t n.last, not_dots t n.last)

all_trimmed : (p : ℕ → Bool) (s : Text) → all p s ≡ true → trim_end p s ≡ []
unfolding trim_end
all_trimmed p [] h = refl
all_trimmed p (c ∷ s) h = ground (arith, h, all_trimmed p s)

trim_end-append :
    (p : ℕ → Bool) (s tail : Text) → all p tail ≡ true → trim_end p (s ++ tail) ≡ trim_end p s
unfolding trim_end
trim_end-append p [] tail h = all_trimmed p tail h
trim_end-append p (c ∷ s) tail h = rw (trim_end-append p s tail h) refl

-- dots and spaces are none of the refused characters
tail_tests :
    (tail : Text)
    → all is_dot_or_space tail ≡ true
    → (contains b'/' tail ≡ false)
      × (contains b'\\' tail ≡ false)
      × (contains b':' tail ≡ false)
      × (any is_control tail ≡ false)
unfolding contains is_control is_dot_or_space
tail_tests [] h = (refl, refl, refl, refl)
tail_tests (c ∷ tail) h =
    let rest = tail_tests tail (ground (arith, h)) in
    (
      ground (arith, h, rest.0),
      ground (arith, h, rest.1),
      ground (arith, h, rest.2),
      ground (arith, h, rest.3),
    )

-- what is trimmed to a text that is not empty is not all dots
not_dots_of_trimmed :
    (name t dots : Text)
    → trim_end is_dot_or_space name ≡ t
    → is_empty t ≡ false
    → all is_dot_or_space dots ≡ true
    → text_eq name dots ≡ false
not_dots_of_trimmed name t dots e some' h = text_eq_ne name dots (λ same.
    let nothing : t ≡ [] =
      sym e ∙ ap (trim_end is_dot_or_space) same ∙ all_trimmed is_dot_or_space dots h in
    ground (arith, some', nothing))

accepted_with_tail :
    (t tail : Text)
    → IsPortable t
    → all is_dot_or_space tail ≡ true
    → validate_bin_name (t ++ tail) ≡ ok t
unfolding validate_bin_name is_dot_or_space
accepted_with_tail t tail n h =
    let trimmed =
      trim_end-append is_dot_or_space t tail h ∙ trim_end-kept is_dot_or_space t n.last in
    let (slash, backslash, colon, control) = tail_tests tail h in
    ground (
      arith,
      n.not_empty,
      n.no_slash,
      n.no_backslash,
      n.no_colon,
      n.no_control,
      n.no_device,
      slash,
      backslash,
      colon,
      control,
      trimmed,
      contains-append b'/' t tail,
      contains-append b'\\' t tail,
      contains-append b':' t tail,
      any-append is_control t tail,
      not_dots_of_trimmed (t ++ tail) t (txt ".") trimmed n.not_empty refl,
      not_dots_of_trimmed (t ++ tail) t (txt "..") trimmed n.not_empty refl,
    )

-- A name is accepted exactly where it is a portable name and behind it only dots and spaces, and
-- then that portable name is returned: dots and spaces at the end are not refused, but cut off.
pub validate_bin_name_iff :
    (name t : Text)
    → (validate_bin_name name ≡ ok t)
      ↔ (IsPortable t × ((tail : Text) × (name ≡ t ++ tail) × (all is_dot_or_space tail ≡ true)))
validate_bin_name_iff name t =
    (validate_bin_name_sound name t, λ (n, (tail, e, h)). rw e (accepted_with_tail t tail n h))
