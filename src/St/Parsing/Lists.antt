-- ===== src/St/Parsing/Lists.antt =====
-- The loops over names and lists take tokens (st/parser.cpp).
use soft_plc.Base.{ℕ, zero, suc, ◌<◌, refl, arith, Str}
use soft_plc.St.Token.{TokenType, is_end}
use soft_plc.St.Parsing.{
  Parse, expect, expect_name, dotted_from, parse_dotted_identifier, more_items, comma_list,
  skip_semicolons,
}
use soft_plc.St.Parsing.Rules.{
  Runs, Runs-lower, Runs-fewer, Runs-seq, Runs-take, Runs-pure, Runs-remaining, expect-Runs,
  Runs-matches,
}

pub expect_name-Runs : (n : ℕ) → Runs n 1 expect_name
unfolding is_end
expect_name-Runs n =
    Runs-take n (expect TokenType.ident) _ (expect-Runs n TokenType.ident refl)
      λ n' tok lt. Runs-pure n' tok.text

dotted_from-Runs : (n fuel : ℕ) (name : Str) → n < fuel → Runs n 0 (dotted_from fuel name)
unfolding dotted_from is_end
dotted_from-Runs n zero name lt = absurd (omega arith)
dotted_from-Runs n (suc fuel) name lt =
    Runs-matches n TokenType.dot_sign _ refl
      (λ n' lt'. Runs-lower n' 1 _ (
        Runs-take n' expect_name _ (expect_name-Runs n')
          λ n2 part lt2. dotted_from-Runs n2 fuel _ (omega arith)))
      (Runs-pure n name)

pub parse_dotted_identifier-Runs : (n : ℕ) → Runs n 1 parse_dotted_identifier
unfolding parse_dotted_identifier
parse_dotted_identifier-Runs n = Runs-take n expect_name _ (expect_name-Runs n) λ n' name lt.
    Runs-remaining n' 0 _
      λ m le. Runs-fewer m m 0 _ (omega arith) (dotted_from-Runs m (suc m) name (omega arith))

module _ {A : Type 0} (item : Parse A) (hi : (n : ℕ) → Runs n 1 item) where
  more_items-Runs : (n fuel : ℕ) → n < fuel → Runs n 0 (more_items item fuel)
  unfolding more_items is_end
  more_items-Runs n zero lt = absurd (omega arith)
  more_items-Runs n (suc fuel) lt =
      Runs-matches n TokenType.comma _ refl
        (λ n' lt'. Runs-lower n' 1 _ (
          Runs-take n' item _ (hi n') λ n2 x lt2.
            Runs-seq n2 0 _ _ (more_items-Runs n2 fuel (omega arith)) λ n3 xs le. Runs-pure n3 _))
        (Runs-pure n _)

  pub comma_list-Runs : (n : ℕ) → Runs n 1 (comma_list item)
  unfolding comma_list
  comma_list-Runs n = Runs-take n item _ (hi n) λ n' x lt.
      Runs-remaining n' 0 _ λ m le.
        Runs-seq m 0 _ _ (more_items-Runs m (suc m) (omega arith)) λ n2 xs le2. Runs-pure n2 _

pub skip_semicolons-Runs : (n fuel : ℕ) → n < fuel → Runs n 0 (skip_semicolons fuel)
unfolding skip_semicolons is_end
skip_semicolons-Runs n zero lt = absurd (omega arith)
skip_semicolons-Runs n (suc fuel) lt =
    Runs-matches n TokenType.semicolon _ refl (λ n' lt'. skip_semicolons-Runs n' fuel (omega arith))
      (Runs-pure n _)
