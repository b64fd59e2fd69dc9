-- ===== src/Api/Handlers.antt =====
-- src/repositories/RepoErrors.hpp, src/api/HandlerSupport.hpp: the exceptions of the repositories and
-- how a handler answers them. An action reads and writes a state and may throw, and keeps what it
-- wrote before.
use tarassov_me.Prelude.{ℕ, Str, codes}

-- `conflict` has its code, `missing` the resource, and `failed` is any other std::exception.
pub data Answer (A : Type 0) : Type 0 where
  ok : A → Answer A
  conflict missing : Str → Answer A
  failed : Answer A

-- A body that says what was done, or a status with its code.
pub data Reply : Type 0 where
  done : Str → Reply
  error : ℕ → Str → Reply

abbrev pub Act : Type 0 → Type 0 → Type 0
Act W A = W → Answer A × W

module _ {W : Type 0} where
  unfoldable pub return : {A : Type 0} → A → Act W A
  return a w = (ok a, w)

  abbrev pub continue : {A B : Type 0} → Answer A × W → (A → Act W B) → Answer B × W
  continue (ok a, w) f = f a w
  continue (conflict c, w) f = (conflict c, w)
  continue (missing r, w) f = (missing r, w)
  continue (failed, w) f = (failed, w)

  infixl 5 ◌>>=◌ ◌>>◌
  unfoldable pub ◌>>=◌ : {A B : Type 0} → Act W A → (A → Act W B) → Act W B
  ◌>>=◌ m f w = continue (m w) f

  abbrev pub ◌>>◌ : {A B : Type 0} → Act W A → Act W B → Act W B
  m >> k = m >>= λ _. k

  abbrev pub answered : Answer Reply × W → Answer Reply × W
  answered (ok r, w) = (ok r, w)
  answered (conflict c, w) = (ok (error 409 c), w)
  answered (missing r, w) = (ok (error 404 r), w)
  answered (failed, w) = (ok (error 500 (codes "internal_error")), w)

  unfoldable pub with_repo_errors : Act W Reply → Act W Reply
  with_repo_errors fn w = answered (fn w)

  -- `catch (const std::exception&)` with a 500.
  abbrev pub caught : Answer Reply × W → Answer Reply × W
  caught (ok r, w) = (ok r, w)
  caught (_, w) = (ok (error 500 (codes "internal_error")), w)

  unfoldable pub or_internal_error : Act W Reply → Act W Reply
  or_internal_error fn w = caught (fn w)
