-- ===== src/QuadKey/Filter/Clauses.antt =====
-- The text of the filter.
use mathlib.Core.List.{append-nil, append_assoc}
use s_ldm.Common.{
  ℕ, suc, ◌+◌, ◌-◌, ◌*◌, ◌^◌, ◌≡◌, refl, sym, ap, ◌∙◌, true, false, List, [], ◌∷◌, ◌++◌, arith, ◌<◌,
  length, length-append,
}
use s_ldm.Numeral.{Text}
use s_ldm.Options.{codes}
use s_ldm.QuadKey.Dimension.{take_chars, dimension, is_too_long, max_length}
use s_ldm.QuadKey.Filter.{insert, add_clause, add_clauses}
use s_ldm.QuadKey.Keys.{chars}

insert_end : (s piece : Text) → insert (length s) piece s ≡ s ++ piece
unfolding insert take_chars
insert_end [] piece = append-nil piece
insert_end (c ∷ s) piece = ap (λ u. c ∷ u) (insert_end s piece)

insert_before_last :
    (s piece : Text) (c : ℕ)
    → insert (length (s ++ c ∷ []) - 1) piece (s ++ c ∷ []) ≡ s ++ piece ++ c ∷ []
unfolding insert take_chars
insert_before_last [] piece c = refl
insert_before_last (d ∷ []) piece c = refl
insert_before_last (d ∷ e ∷ s) piece c =
    let rest = insert_before_last (e ∷ s) piece c in
    let n = length (s ++ c ∷ []) in
    let position : suc (suc n) - 1 ≡ suc (suc n - 1) = omega arith in
    rw position (ap (λ u. d ∷ u) rest)

-- `quadkeys LIKE '…%'`
unfoldable pub clause : Text → Text
clause k = codes "quadkeys LIKE '" ++ k ++ codes "%'"

unfoldable pub separated : List Text → Text
separated [] = []
separated (k ∷ []) = clause k
separated (k ∷ l ∷ ks) = clause k ++ codes " OR " ++ separated (l ∷ ks)

-- the text of one round, without what follows the last insertion of a key
module _ (k s : Text) where
  opened : Text
  opened = insert (length s) (codes "quadkeys LIKE ''") s

  with_key : Text
  with_key = insert (length opened - 1) k opened

  closed : Text
  closed = insert (length with_key - 1) (codes "%") with_key

  opened_lem : opened ≡ (s ++ codes "quadkeys LIKE '") ++ codes "'"
  unfolding opened
  opened_lem =
      insert_end s (codes "quadkeys LIKE ''")
      ∙ sym (append_assoc s (codes "quadkeys LIKE '") (codes "'"))

  with_key_lem : with_key ≡ ((s ++ codes "quadkeys LIKE '") ++ k) ++ codes "'"
  unfolding with_key
  with_key_lem = rw opened_lem (insert_before_last (s ++ codes "quadkeys LIKE '") k b'\'')

  closed_lem : closed ≡ s ++ clause k
  unfolding closed clause
  closed_lem =
      let t = (s ++ codes "quadkeys LIKE '") ++ k in
      let e : closed ≡ (t ++ codes "%") ++ codes "'" =
        rw with_key_lem (insert_before_last t (codes "%") b'\'') in
      e ∙ simp append_assoc

add_clause-false : (k s : Text) → add_clause false k s ≡ s ++ (clause k ++ codes " OR ")
unfolding add_clause closed with_key opened
add_clause-false k s =
    insert_end (closed k s) (codes " OR ")
    ∙ ap (λ u. u ++ codes " OR ") (closed_lem k s)
    ∙ append_assoc s (clause k) (codes " OR ")

add_clause-true : (k s : Text) → add_clause true k s ≡ s ++ clause k
unfolding add_clause closed with_key opened
add_clause-true k s = closed_lem k s

add_clauses_from : (ks : List Text) (s : Text) → add_clauses ks s ≡ s ++ separated ks
unfolding add_clauses separated
add_clauses_from [] s = sym (append-nil s)
add_clauses_from (k ∷ []) s = add_clause-true k s
add_clauses_from (k ∷ l ∷ ks) s =
    add_clauses_from (l ∷ ks) (add_clause false k s)
    ∙ ap (λ u. u ++ separated (l ∷ ks)) (add_clause-false k s)
    ∙ append_assoc s (clause k ++ codes " OR ") (separated (l ∷ ks))

-- The filter that the insertions at computed positions build is the list of the clauses
-- `quadkeys LIKE '…%'`, one for each key in order, with ` OR ` between them.
pub add_clauses_lem : (ks : List Text) → add_clauses ks [] ≡ separated ks
add_clauses_lem ks = add_clauses_from ks []

length-clause : (k : Text) → length (clause k) ≡ 17 + length k
unfolding clause
length-clause k = omega (
  arith,
  length-append (codes "quadkeys LIKE '" ++ k) (codes "%'"),
  length-append (codes "quadkeys LIKE '") k,
)

length-separated :
    (k : Text) (ks : List Text)
    → length (separated (k ∷ ks)) + 4 ≡ chars (k ∷ ks) + 21 * length (k ∷ ks)
unfolding separated chars
length-separated k [] = omega (arith, length-clause k)
length-separated k (l ∷ ks) = omega (
  arith,
  length-clause k,
  length-separated l ks,
  length-append (clause k ++ codes " OR ") (separated (l ∷ ks)),
  length-append (clause k) (codes " OR "),
)

-- The size that `checkdim` computes is the one of the filter: where the keys that it leaves pass its
-- test, and their total stays below 2^31, the text of the filter has less than 100000 - 180
-- characters.
pub length-add_clauses :
    (ks : List Text)
    → is_too_long (dimension ks) ≡ false
    → chars ks + 21 * length ks + 176 < 2 ^ 31
    → length (add_clauses ks []) + 180 < 100_000
unfolding is_too_long dimension max_length separated
length-add_clauses [] h l = rw add_clauses_lem (omega arith)
length-add_clauses (k ∷ ks) h l =
    let size : length (add_clauses (k ∷ ks) []) ≡ length (separated (k ∷ ks)) =
      ap length (add_clauses_lem (k ∷ ks)) in
    let total = length-separated k ks in ground arith
