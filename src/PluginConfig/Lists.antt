-- ===== src/PluginConfig/Lists.antt =====
-- The comma-separated text fields: what is shown of a list is read back as the list.
use backup_orchestration_pla.Common.{
  ◌≡◌, ◌≢◌, refl, ap, ◌∙◌, true, Bool-cases, inl, inr, List, [], ◌∷◌, ◌++◌, All, filter, map, arith,
}
use backup_orchestration_pla.Common.Text.{Text, codes, truthy}
use backup_orchestration_pla.Common.Text.Trim.{
  trim, drop_spaces, is_space, IsTrimmed, trim-IsTrimmed, trim_fixed, All-trim,
}
use backup_orchestration_pla.Common.Text.Split.{
  split, join, Lacks, split-append, split_single, split-Lacks,
}
use backup_orchestration_pla.PluginConfig.{split_list}

-- An entry as the list holds it: not empty, without a comma, with no space at its ends.
pub record IsEntry (x : Text) : Type 0 where
  pub filled : truthy x ≡ true
  pub comma_free : Lacks b',' x
  pub trimmed : IsTrimmed x

entries : (ps : List Text) → All (Lacks b',') ps → All IsEntry (filter truthy (map trim ps))
entries [] h = tt
entries (p ∷ ps) h = elim (Bool-cases (truthy (trim p))) [
  | inl e ↦ rw e (
    record { filled = e; comma_free = All-trim (λ c. c ≢ b',') p h.0; trimmed = trim-IsTrimmed p },
    entries ps h.1,
  )
  | inr e ↦ rw e (entries ps h.1)
]

-- Whatever is typed, each item of the list that is sent is not empty, has no comma, and no space at its ends.
pub split_list-IsEntry : (text : Text) → All IsEntry (split_list text)
unfolding split_list
split_list-IsEntry text = entries (split b',' text) (split-Lacks b',' text)

-- `xs.join(', ')`
abbrev pub shown : List Text → Text
shown xs = join (codes ", ") xs

-- Every entry but the first is shown behind a space.
trim_space : (x : Text) → IsTrimmed x → trim (b' ' ∷ x) ≡ x
unfolding trim drop_spaces is_space
trim_space x h = trim_fixed x h

abbrev kept : List Text → List Text
kept parts = filter truthy (map trim parts)

keep : (p x : Text) (ps : List Text) → trim p ≡ x → truthy x ≡ true → kept (p ∷ ps) ≡ x ∷ kept ps
keep p x ps e t = rw (e, t)

parts_of_last :
    (p x : Text) → Lacks b',' p → trim p ≡ x → truthy x ≡ true → kept (split b',' p) ≡ x ∷ []
parts_of_last p x l e t = rw (split_single b',' p l) (keep p x [] e t)

parts_of_next :
    (p x s : Text)
    → Lacks b',' p
    → trim p ≡ x
    → truthy x ≡ true
    → kept (split b',' (p ++ b',' ∷ s)) ≡ x ∷ kept (split b',' s)
parts_of_next p x s l e t = rw (split-append b',' p s l) (keep p x (split b',' s) e t)

behind_space :
    (x : Text) (xs : List Text)
    → All IsEntry (x ∷ xs)
    → kept (split b',' (b' ' ∷ shown (x ∷ xs))) ≡ x ∷ xs
unfolding join
behind_space x [] h =
    parts_of_last (b' ' ∷ x) x ((omega arith), h.0.comma_free) (trim_space x h.0.trimmed) h.0.filled
behind_space x (y ∷ ys) h =
    parts_of_next (b' ' ∷ x) x (b' ' ∷ shown (y ∷ ys)) ((omega arith), h.0.comma_free)
      (trim_space x h.0.trimmed) h.0.filled
    ∙ ap (◌∷◌ x) (behind_space y ys h.1)

-- A list of items that are not empty, have no comma, and no space at their ends, is sent as it was when it
-- is shown in its text field and submitted untouched.
pub split_list-join : (xs : List Text) → All IsEntry xs → split_list (shown xs) ≡ xs
unfolding split_list join
split_list-join [] h = unfold split trim drop_spaces in refl
split_list-join (x ∷ []) h = parts_of_last x x h.0.comma_free (trim_fixed x h.0.trimmed) h.0.filled
split_list-join (x ∷ y ∷ ys) h =
    parts_of_next x x (b' ' ∷ shown (y ∷ ys)) h.0.comma_free (trim_fixed x h.0.trimmed) h.0.filled
    ∙ ap (◌∷◌ x) (behind_space y ys h.1)

-- So a second pass through the text field changes nothing more.
pub split_list_normalises : (text : Text) → split_list (shown (split_list text)) ≡ split_list text
split_list_normalises text = split_list-join (split_list text) (split_list-IsEntry text)
