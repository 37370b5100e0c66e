-- ===== src/Utils/Spelling.antt =====
-- What texts `parseBoolean` of src/common/utils.ts reads as true and as false.
use nodejs_pro_task.Base.{
  ℕ, String, ◌≡◌, refl, ap, ◌∙◌, inl, inr, Bool-cases, Bool, true, false, ◌&&◌, not, List, [], ◌∷◌,
  ◌++◌, map, leb, arith, eq_of_==,
}
use nodejs_pro_task.Errors.{ok}
use nodejs_pro_task.Http.Correlation.{is_space}
use nodejs_pro_task.Utils.{
  codes, to_lower, trim_start, trim_end, trim, cons_visible, same, has, truthy_booleans,
  falsy_booleans, valid_booleans, parse_boolean,
}

abbrev pub all_spaces : List ℕ → Bool
all_spaces [] = true
all_spaces (c ∷ s) = is_space c && all_spaces s

abbrev no_spaces : List ℕ → Bool
no_spaces [] = true
no_spaces (c ∷ s) = not (is_space c) && no_spaces s

abbrev letters : List ℕ → Bool
letters [] = true
letters (c ∷ s) = (leb b'a' c && leb c b'z') && letters s

-- The words that stand for a boolean.
abbrev pub words : Bool → List String
words true = truthy_booleans
words false = falsy_booleans

-- The text is one of the words in any case, with spaces around it.
pub record Spells (ws : List String) (value : String) : Type 0 where
  pub before : List ℕ
  pub word : List ℕ
  pub after : List ℕ
  pub spaces_before : all_spaces before ≡ true
  pub spaces_after : all_spaces after ≡ true
  pub is_word : has ws (map to_lower word) ≡ true
  pub made_of : codes value ≡ before ++ (word ++ after)

trim_start-append : (b s : List ℕ) → all_spaces b ≡ true → trim_start (b ++ s) ≡ trim_start s
trim_start-append [] s h = refl
trim_start-append (c ∷ b) s h = ground (arith, trim_start-append b s)

trim_end-spaces : (s : List ℕ) → all_spaces s ≡ true → trim_end s ≡ []
trim_end-spaces [] h = refl
trim_end-spaces (c ∷ s) h = let rest = trim_end-spaces s (ground arith) in ground arith

trim_end-append : (s t : List ℕ) → no_spaces s ≡ true → all_spaces t ≡ true → trim_end (s ++ t) ≡ s
trim_end-append [] t h k = trim_end-spaces t k
trim_end-append (c ∷ []) t h k = let rest = trim_end-spaces t k in ground arith
trim_end-append (c ∷ d ∷ s) t h k =
    let rest = trim_end-append (d ∷ s) t (ground arith) k in ground arith

-- What `trim` takes off are spaces.
start_split : (s : List ℕ) → (b : List ℕ) × (all_spaces b ≡ true) × (s ≡ b ++ trim_start s)
start_split [] = ([], refl, refl)
start_split (c ∷ s) = elim (Bool-cases (is_space c)) [
  | inl space ↦ let (b, spaces, e) = start_split s in (c ∷ b, ground arith, ground arith)
  | inr visible ↦ ([], refl, ground arith)
]

end_step :
    (c : ℕ) (r a s : List ℕ)
    → all_spaces a ≡ true
    → s ≡ r ++ a
    → (x : List ℕ) × (all_spaces x ≡ true) × (c ∷ s ≡ cons_visible c r ++ x)
end_step c [] a s h e = elim (Bool-cases (is_space c)) [
  | inl space ↦ (c ∷ a, ground arith, ground arith)
  | inr visible ↦ (a, h, ground arith)
]
end_step c (d ∷ r) a s h e = (a, h, ap (λ t. c ∷ t) e)

end_split : (s : List ℕ) → (a : List ℕ) × (all_spaces a ≡ true) × (s ≡ trim_end s ++ a)
end_split [] = ([], refl, refl)
end_split (c ∷ s) = let (a, spaces, e) = end_split s in end_step c (trim_end s) a s spaces e

same-eq : (s t : List ℕ) → same s t ≡ true → s ≡ t
same-eq [] [] h = refl
same-eq [] (b ∷ t) h = absurd (ground arith)
same-eq (a ∷ s) [] h = absurd (ground arith)
same-eq (a ∷ s) (b ∷ t) h = cc (eq_of_== a b (ground arith), same-eq s t (ground arith))

-- Each word of the list is a list of letters.
abbrev all_letters : List String → Bool
all_letters [] = true
all_letters (w ∷ ws) = letters (codes w) && all_letters ws

letters_of_has :
    (ws : List String) (s : List ℕ) → all_letters ws ≡ true → has ws s ≡ true → letters s ≡ true
letters_of_has [] s l h = absurd (ground arith)
letters_of_has (w ∷ ws) s l h = elim (Bool-cases (same s (codes w))) [
  | inl e ↦ ap letters (same-eq s (codes w) e) ∙ ground arith
  | inr n ↦ letters_of_has ws s (ground arith) (ground arith)
]

visible_letter :
    (c : ℕ) → (leb b'a' (to_lower c) && leb (to_lower c) b'z') ≡ true → is_space c ≡ false
unfolding to_lower
visible_letter c h = ground arith

no_spaces_of_letters : (s : List ℕ) → letters (map to_lower s) ≡ true → no_spaces s ≡ true
no_spaces_of_letters [] h = refl
no_spaces_of_letters (c ∷ s) h =
    let visible = visible_letter c (ground arith) in
    let rest = no_spaces_of_letters s (ground arith) in ground arith

trim_start-spaces : (s : List ℕ) → all_spaces s ≡ true → trim_start s ≡ []
trim_start-spaces [] h = refl
trim_start-spaces (c ∷ s) h = ground (arith, trim_start-spaces s)

trim_visible :
    (w a : List ℕ) → no_spaces w ≡ true → all_spaces a ≡ true → trim_end (trim_start (w ++ a)) ≡ w
trim_visible [] a h k = ap trim_end (trim_start-spaces a k)
trim_visible (c ∷ w) a h k =
    let starts : trim_start ((c ∷ w) ++ a) ≡ (c ∷ w) ++ a = ground arith in
    ap trim_end starts ∙ trim_end-append (c ∷ w) a h k

trim-word :
    (b w a : List ℕ) (ws : List String)
    → all_spaces b ≡ true
    → all_spaces a ≡ true
    → all_letters ws ≡ true
    → has ws (map to_lower w) ≡ true
    → trim (b ++ (w ++ a)) ≡ w
unfolding trim
trim-word b w a ws hb ha l h =
    let visible = no_spaces_of_letters w (letters_of_has ws (map to_lower w) l h) in
    ap trim_end (trim_start-append b (w ++ a) hb) ∙ trim_visible w a visible ha

falsy_at :
    (s w : List ℕ)
    → same s w ≡ true
    → (has valid_booleans w ≡ true) × (has truthy_booleans w ≡ false)
    → (has valid_booleans s ≡ true) × (has truthy_booleans s ≡ false)
falsy_at s w e (v, t) =
    let q = same-eq s w e in (ap (has valid_booleans) q ∙ v, ap (has truthy_booleans) q ∙ t)

has_valid :
    (b : Bool) (s : List ℕ)
    → has (words b) s ≡ true
    → (has valid_booleans s ≡ true) × (has truthy_booleans s ≡ b)
has_valid true s h = (ground arith, h)
has_valid false s h = elim (Bool-cases (same s (codes "false"))) [
  | inl e ↦ falsy_at s (codes "false") e (refl, refl)
  | inr differs ↦ elim (Bool-cases (same s (codes "no"))) [
    | inl e ↦ falsy_at s (codes "no") e (refl, refl)
    | inr differs' ↦ falsy_at s (codes "n") (ground arith) (refl, refl)
  ]
]

words_are_letters : (b : Bool) → all_letters (words b) ≡ true
words_are_letters true = refl
words_are_letters false = refl

spelled_word :
    (b : Bool) (s : List ℕ)
    → has valid_booleans s ≡ true
    → has truthy_booleans s ≡ b
    → has (words b) s ≡ true
spelled_word true s h k = k
spelled_word false s h k = ground arith

parse-Spells : (value : String) (b : Bool) → Spells (words b) value → parse_boolean value ≡ ok b
unfolding parse_boolean
parse-Spells value b p =
    let trimmed : trim (codes value) ≡ p.word =
      ap trim p.made_of
      ∙ trim-word p.before p.word p.after (words b) p.spaces_before p.spaces_after
          (words_are_letters b) p.is_word in
    let (valid, truthy) = has_valid b (map to_lower p.word) p.is_word in
    let prepared = ap (map to_lower) trimmed in
    let valid' = ap (has valid_booleans) prepared ∙ valid in
    let truthy' = ap (has truthy_booleans) prepared ∙ truthy in ground arith

Spells-parse : (value : String) (b : Bool) → parse_boolean value ≡ ok b → Spells (words b) value
unfolding parse_boolean trim
Spells-parse value b h =
    let prepared = map to_lower (trim (codes value)) in
    let (x, spaces_before, e) = start_split (codes value) in
    let (y, spaces_after, k) = end_split (trim_start (codes value)) in
    elim (Bool-cases (has valid_booleans prepared)) [
      | inl valid ↦
          let truthy : has truthy_booleans prepared ≡ b = ground arith in
          record {
            before = x;
            word = trim (codes value);
            after = y;
            spaces_before = spaces_before;
            spaces_after = spaces_after;
            is_word = spelled_word b prepared valid truthy;
            made_of = e ∙ ap (λ t. x ++ t) k;
          }
      | inr invalid ↦ absurd (ground arith)
    ]

-- parseBoolean reads a text as a boolean exactly when the text is one of the words for this
-- boolean, in any case and with any spaces around it.
pub parse_boolean-Spells :
    (value : String) (b : Bool)
    → (Spells (words b) value → parse_boolean value ≡ ok b)
      × (parse_boolean value ≡ ok b → Spells (words b) value)
parse_boolean-Spells value b = (parse-Spells value b, Spells-parse value b)
