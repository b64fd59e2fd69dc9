-- ===== src/Database/Execute/Statements.antt =====
-- src/database/Database.hpp: the statements that TracingTxn writes to its span.
use tarassov_me.Prelude.{
  ℕ, suc, ◌≤◌, ◌≡◌, [], ◌∷◌, ◌++◌, Str, codes, length, length-append, length-take, take, leb, arith,
  if◌then◌else◌, refl, Bool-cases, inl, inr, leb→le,
}

pub record TracingTxn : Type 0 where
  pub statements : Str
  pub count : ℕ

pub record_statement : Str → TracingTxn → TracingTxn
record_statement q t = record {
  statements =
      (if leb (length t.statements) 0 then t.statements else t.statements ++ codes "; ") ++ q;
  count = suc t.count;
}

-- The mark of three bytes is the UTF-8 of U+2026.
pub truncated : TracingTxn → Str
truncated t =
    if leb (length t.statements) 2048
    then t.statements
    else take 2048 t.statements ++ 226 ∷ 128 ∷ 166 ∷ []

truncated_bound : (t : TracingTxn) → length (truncated t) ≤ 2051
unfolding truncated
truncated_bound t = elim (Bool-cases (leb (length t.statements) 2048)) [
  | inl short ↦ rw short (omega (arith, leb→le (length t.statements) 2048 short))
  | inr long ↦ rw long (
      omega (
        arith,
        length-append (take 2048 t.statements) (226 ∷ 128 ∷ 166 ∷ []),
        length-take 2048 t.statements,
      ))
]

abbrev no_statements : TracingTxn
no_statements = record { statements = []; count = 0 }

record_two :
    record_statement (codes "B") (record_statement (codes "A") no_statements)
    ≡ record { statements = codes "A; B"; count = 2 }
unfolding record_statement
record_two = refl
