-- ===== src/Config/Backoff.antt =====
-- app/core/config.py: `Settings.retry_backoff_list`, which reads the delays from a text.
use Prim.Native.Char.{Char}
use notification_test.Base.{
  ℕ, ◌≡◌, refl, ap, ◌∙◌, inl, inr, String, Bool, true, false, ◌&&◌, not, List, [], ◌∷◌, map, arith,
  str_eq, Has, if◌then◌else◌,
}
use notification_test.Exec.{Result, ok, collect}

abbrev pub is_comma : Char → Bool
is_comma c = str_eq (String.◌∷◌ c "") ","

abbrev pub comma_free : String → Bool
comma_free String.[] = true
comma_free (String.◌∷◌ c s) = not (is_comma c) && comma_free s

-- Python's `str.strip()`, `int(text)` and `str(number)`. The numbers are not negative.
pub record Texts : Type 0 where
  pub strip : String → String
  pub int : String → Result ℕ
  pub str : ℕ → String
  pub int-str : (n : ℕ) → int (str n) ≡ ok n
  pub str_visible : (n : ℕ) → str_eq (str n) "" ≡ false

-- The text before the first comma gets one character more.
abbrev push_first : Char → List String → List String
push_first c [] = String.◌∷◌ c "" ∷ []
push_first c (s ∷ rest) = String.◌∷◌ c s ∷ rest

-- `text.split(",")`
unfoldable pub split : String → List String
split String.[] = "" ∷ []
split (String.◌∷◌ c s) = let rest = split s in if is_comma c then "" ∷ rest else push_first c rest

-- The elements that are not the empty text.
unfoldable pub non_empty : List String → List String
non_empty [] = []
non_empty (s ∷ rest) = let others = non_empty rest in if str_eq s "" then others else s ∷ others

unfoldable pub parse_backoff : Texts → String → Result (List ℕ)
unfolding split non_empty
parse_backoff texts retry_backoff_seconds =
    collect texts.int (non_empty (map texts.strip (split retry_backoff_seconds)))

abbrev append : String → String → String
append String.[] t = t
append (String.◌∷◌ c s) t = String.◌∷◌ c (append s t)

-- The items with a comma between any two.
abbrev pub join : String → List String → String
join s [] = s
join s (t ∷ rest) = append s (append "," (join t rest))

split_free : (s : String) → comma_free s ≡ true → split s ≡ s ∷ []
unfolding split
split_free String.[] h = refl
split_free (String.◌∷◌ c s) h = ground (arith, split_free s, h)

split_item : (s t : String) → comma_free s ≡ true → split (append s (append "," t)) ≡ s ∷ split t
unfolding split
split_item String.[] t h = refl
split_item (String.◌∷◌ c s) t h = ground (arith, split_item s t, h)

split-join :
    (s : String) (rest : List String)
    → ((x : String) → Has x (s ∷ rest) → comma_free x ≡ true)
    → split (join s rest) ≡ s ∷ rest
split-join s [] free = split_free s (free s (inl refl))
split-join s (t ∷ rest) free =
    split_item s (join t rest) (free s (inl refl))
    ∙ ap (λ l. s ∷ l) (split-join t rest (λ x has. free x (inr has)))

module _ (texts : Texts) where
  -- What is read of items without a comma is what `int` reads of those that are not blank.
  parse_items :
      (s : String) (rest : List String)
      → ((x : String) → Has x (s ∷ rest) → comma_free x ≡ true)
      → parse_backoff texts (join s rest)
        ≡ collect texts.int (non_empty (map texts.strip (s ∷ rest)))
  unfolding parse_backoff
  parse_items s rest free =
      ap (λ l. collect texts.int (non_empty (map texts.strip l))) (split-join s rest free)

  -- A text that shows the number, perhaps between blanks.
  pub record Shows (x : String) (n : ℕ) : Type 0 where
    pub free : comma_free x ≡ true
    pub stripped : texts.strip x ≡ texts.str n

  pub data ShowAll : List String → List ℕ → Type 0 where
    no_items : ShowAll [] []
    item :
        {x : String} {n : ℕ} {xs : List String} {ns : List ℕ}
        → Shows x n
        → ShowAll xs ns
        → ShowAll (x ∷ xs) (n ∷ ns)

  show_free :
      (xs : List String) (ns : List ℕ)
      → ShowAll xs ns
      → (x : String) → Has x xs
      → comma_free x ≡ true
  show_free _ _ no_items x has = absurd has
  show_free _ _ (item s all) x (inl e) = rw (← e) s.free
  show_free _ _ (item s all) x (inr has) = show_free _ _ all x has

  read_all :
      (xs : List String) (ns : List ℕ)
      → ShowAll xs ns
      → collect texts.int (non_empty (map texts.strip xs)) ≡ ok ns
  unfolding collect non_empty
  read_all _ _ no_items = refl
  read_all _ _ (item {n = n} s all) =
      ground (arith, s.stripped, texts.str_visible n, texts.int-str n, read_all _ _ all)

  -- Texts of numbers with commas between them are read as those numbers, also with blanks around
  -- them.
  pub parse_backoff-join :
      (s : String) (rest : List String) (ns : List ℕ)
      → ShowAll (s ∷ rest) ns
      → parse_backoff texts (join s rest) ≡ ok ns
  parse_backoff-join s rest ns all =
      parse_items s rest (show_free (s ∷ rest) ns all) ∙ read_all (s ∷ rest) ns all
