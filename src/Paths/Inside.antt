-- ===== src/Paths/Inside.antt =====
-- The names of src/attachment-safety.ts and src/group-folder.ts stay in the directory that they are
-- joined to, and src/platform-id.ts adds a prefix once.
use clawie.CommandGate.{trim_start, trim_end}
use mathlib.Core.Path.{subst}
use Prim.Native.Char.{Char, code}
use Prim.Native.String.{[] as empty, ◌∷◌ as str_cons, ◌++◌ as str_append}
use text.Mathlib.TextLemmas.{cons-append, nil-append, append_assoc}
use clawie.Prelude.{
  ℕ, zero, suc, ◌/◌, ◌%◌, ◌<◌, String, Bool, true, false, not, ◌||◌, List, [], ◌∷◌, ◌++◌, ◌≡◌, refl,
  sym, ap, ◌∙◌, inl, inr, arith, Bool-cases, if-intro, str_eq, str_eq_iff, ◌==◌, false≢true,
}
use clawie.Json.{Fields}
use clawie.Central.Names.{decimal, print_decimal, digit_at}
use clawie.Paths.{
  starts_with, includes, segments, cons_first, has_separator, is_safe_attachment_name, stored_name,
  derive_attachment_name, is_valid_group_folder, is_folder_name, is_folder_rest,
  namespaced_platform_id,
}

cons_first-append :
    (c : Char) (xs ys : List String) → ¬ (xs ≡ []) → cons_first c (xs ++ ys) ≡ cons_first c xs ++ ys
cons_first-append c [] ys ne = absurd (ne refl)
cons_first-append c (x ∷ xs) ys ne = refl

cons_first-ne : (c : Char) (l : List String) → ¬ (cons_first c l ≡ [])
cons_first-ne c [] e = cc
cons_first-ne c (x ∷ l) e = cc

segments-ne : (s : String) → ¬ (segments s ≡ [])
segments-ne empty = λ e. cc
segments-ne (str_cons c s) =
    if-intro (λ (l : List String). ¬ (l ≡ [])) (code c == b'/') (λ _ e. cc)
      (λ _. cons_first-ne c (segments s))

-- A path joined to a directory has the segments of both.
segments-join :
    (dir name : String)
    → segments (str_append dir (str_append "/" name)) ≡ segments dir ++ segments name
segments-join empty name =
    ap segments (nil-append (str_append "/" name) ∙ cons-append "/" "" name)
    ∙ ap (λ s. "" ∷ segments s) (nil-append name)
segments-join (str_cons c dir) name =
    ap segments (cons-append c dir (str_append "/" name)) ∙ elim (Bool-cases (code c == b'/')) [
      | inl e ↦ rw e (ap (λ l. "" ∷ l) (segments-join dir name))
      | inr e ↦ rw e (
          ap (cons_first c) (segments-join dir name)
          ∙ cons_first-append c (segments dir) (segments name) (segments-ne dir))
    ]

segments-single : (s : String) → has_separator s ≡ false → segments s ≡ s ∷ []
segments-single empty h = refl
segments-single (str_cons c s) h =
    let head : (code c == b'/') ≡ false = ground (arith, h) in
    rw head (ap (cons_first c) (segments-single s (ground (arith, h))))

-- a name that is a file of a directory, and neither the directory nor its parent
abbrev pub IsChild : String → Type 0
IsChild name =
    ((dir : String) → segments (str_append dir (str_append "/" name)) ≡ segments dir ++ name ∷ [])
    × (str_eq name "" ≡ false)
    × (str_eq name "." ≡ false)
    × (str_eq name ".." ≡ false)

IsChild-intro :
    (name : String)
    → has_separator name ≡ false
    → str_eq name "" ≡ false
    → str_eq name "." ≡ false
    → str_eq name ".." ≡ false
    → IsChild name
IsChild-intro name clean a b c = (
  λ dir. segments-join dir name ∙ ap (λ l. segments dir ++ l) (segments-single name clean),
  a,
  b,
  c,
)

-- A name that is safe is a file of the directory that it is joined to.
is_safe_attachment_name-IsChild :
    (name : String) → is_safe_attachment_name name ≡ true → IsChild name
unfolding is_safe_attachment_name
is_safe_attachment_name-IsChild name safe =
    if-intro (λ b. b ≡ true → IsChild name) (str_eq name "") (λ _ e. absurd (false≢true e))
      (λ full.
        if-intro (λ b. b ≡ true → IsChild name) (str_eq name "." || str_eq name "..")
          (λ _ e. absurd (false≢true e))
          (λ named.
            if-intro (λ b. b ≡ true → IsChild name) (has_separator name)
              (λ _ e. absurd (false≢true e))
              (λ clean _.
                IsChild-intro name clean full (ground (arith, named)) (ground (arith, named)))))
      safe

has_separator-append :
    (s t : String) → has_separator (str_append s t) ≡ (has_separator s || has_separator t)
has_separator-append empty t = ap has_separator (nil-append t)
has_separator-append (str_cons c s) t =
    ap has_separator (cons-append c s t) ∙ ground (arith, has_separator-append s t)

digit-clean :
    (d : ℕ) (s : String)
    → d < 10
    → has_separator (str_cons (digit_at "0123456789" d) s) ≡ has_separator s
digit-clean zero s h = refl
digit-clean (suc zero) s h = refl
digit-clean (suc (suc zero)) s h = refl
digit-clean (suc (suc (suc zero))) s h = refl
digit-clean (suc (suc (suc (suc zero)))) s h = refl
digit-clean (suc (suc (suc (suc (suc zero))))) s h = refl
digit-clean (suc (suc (suc (suc (suc (suc zero)))))) s h = refl
digit-clean (suc (suc (suc (suc (suc (suc (suc zero))))))) s h = refl
digit-clean (suc (suc (suc (suc (suc (suc (suc (suc zero)))))))) s h = refl
digit-clean (suc (suc (suc (suc (suc (suc (suc (suc (suc zero))))))))) s h = refl
digit-clean (suc (suc (suc (suc (suc (suc (suc (suc (suc (suc d)))))))))) s h =
    absurd (omega (arith, h))

print_decimal-clean :
    (fuel n : ℕ) (rest : String) → has_separator (print_decimal fuel n rest) ≡ has_separator rest
unfolding print_decimal
print_decimal-clean zero n rest = refl
print_decimal-clean (suc fuel) n rest =
    let digit : has_separator (str_cons (digit_at "0123456789" (n % 10)) rest)
        ≡ has_separator rest =
      digit-clean (n % 10) rest (omega arith) in
    if-intro (λ (s : String). has_separator s ≡ has_separator rest) (n / 10 == 0) (λ _. digit)
      (λ _.
        print_decimal-clean fuel (n / 10) (str_cons (digit_at "0123456789" (n % 10)) rest) ∙ digit)

starts_with-append : (s t : String) → starts_with (str_append s t) s ≡ true
starts_with-append empty t = refl
starts_with-append (str_cons c s) t =
    ap (λ u. starts_with u (str_cons c s)) (cons-append c s t)
    ∙ ground (arith, starts_with-append s t)

-- A test that tells two texts apart.
told_apart : (p : String → Bool) (s t : String) → p s ≡ true → p t ≡ false → str_eq s t ≡ false
told_apart p s t good bad = elim (Bool-cases (str_eq s t)) [
  | inl e ↦ absurd (false≢true (sym bad ∙ subst (λ u. p u ≡ true) ((str_eq_iff s t).0 e) good))
  | inr e ↦ e
]

fallback-IsChild : (now : ℕ) → IsChild (str_append "attachment-" (decimal now))
unfolding decimal
fallback-IsChild now =
    IsChild-intro (str_append "attachment-" (decimal now))
      (has_separator-append "attachment-" (decimal now) ∙ print_decimal-clean (suc now) now "")
      (apart "" refl) (apart "." refl) (apart ".." refl)
  where
    apart :
        (t : String)
        → starts_with t "attachment-" ≡ false
        → str_eq (str_append "attachment-" (decimal now)) t ≡ false
    apart t e =
        told_apart (λ u. starts_with u "attachment-") (str_append "attachment-" (decimal now)) t
          (starts_with-append "attachment-" (decimal now)) e

-- Whatever a channel sends for an attachment, the name that its file is stored under is one segment of
-- a path that is neither empty nor a step to the directory itself or its parent.
pub stored_name-IsChild : (earlier now : ℕ) (att : Fields) → IsChild (stored_name earlier now att)
unfolding stored_name
stored_name-IsChild earlier now att =
    let raw = derive_attachment_name earlier att in
    if-intro IsChild (is_safe_attachment_name raw)
      (λ safe. is_safe_attachment_name-IsChild raw safe) (λ _. fallback-IsChild now)

is_folder_rest-clean : (n : ℕ) (s : String) → is_folder_rest n s ≡ true → has_separator s ≡ false
is_folder_rest-clean n empty h = refl
is_folder_rest-clean zero (str_cons c s) h = absurd (false≢true h)
is_folder_rest-clean (suc n) (str_cons c s) h = ground (arith, h, is_folder_rest-clean n s)

is_folder_name-clean : (s : String) → is_folder_name s ≡ true → has_separator s ≡ false
is_folder_name-clean empty h = refl
is_folder_name-clean (str_cons c s) h = ground (arith, h, is_folder_rest-clean 63 s)

is_folder_name-IsChild : (folder : String) → is_folder_name folder ≡ true → IsChild folder
is_folder_name-IsChild folder h =
    IsChild-intro folder (is_folder_name-clean folder h)
      (told_apart is_folder_name folder "" h refl) (told_apart is_folder_name folder "." h refl)
      (told_apart is_folder_name folder ".." h refl)

-- The folder of an agent group that is accepted is a folder of the directory of all groups.
pub is_valid_group_folder-IsChild :
    (folder : String) → is_valid_group_folder folder ≡ true → IsChild folder
unfolding is_valid_group_folder
is_valid_group_folder-IsChild folder valid =
    if-intro (λ b. b ≡ true → IsChild folder) (str_eq folder "") (λ _ e. absurd (false≢true e))
      (λ _.
        if-intro (λ b. b ≡ true → IsChild folder)
          (not (str_eq folder (trim_end (trim_start folder)))) (λ _ e. absurd (false≢true e))
          (λ _.
            if-intro (λ b. b ≡ true → IsChild folder) (not (is_folder_name folder))
              (λ _ e. absurd (false≢true e))
              (λ named _. is_folder_name-IsChild folder (ground (arith, named)))))
      valid

-- A platform id that has its prefix gets no other.
pub namespaced_platform_id_idem :
    (channel raw : String)
    → namespaced_platform_id channel (namespaced_platform_id channel raw)
      ≡ namespaced_platform_id channel raw
unfolding namespaced_platform_id
namespaced_platform_id_idem channel raw =
    let Once = λ (r : String). namespaced_platform_id channel r ≡ r in
    let prefixed = str_append channel (str_append ":" raw) in
    let starts : starts_with prefixed (str_append channel ":") ≡ true =
      ap (λ u. starts_with u (str_append channel ":")) (sym (append_assoc channel ":" raw))
      ∙ starts_with-append (str_append channel ":") raw in
    if-intro Once (starts_with raw (str_append channel ":")) (λ a. rw a refl)
      (λ a.
        if-intro Once (includes raw "@") (λ b. rw (a, b) refl)
          (λ b.
            if-intro Once (starts_with raw "+" || starts_with raw "group:") (λ c. rw (a, b, c) refl)
              (λ c.
                if-intro Once (str_eq channel "deltachat") (λ d. rw (a, b, c, d) refl)
                  (λ d. rw starts refl))))
