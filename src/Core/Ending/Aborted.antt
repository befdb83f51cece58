-- ===== src/Core/Ending/Aborted.antt =====
-- The tasks that are aborted, and that none is taken back from its abort.
use zyris_protocol.Prelude.{
  ℕ, zero, suc, ◌≡◌, refl, ap, ◌∙◌, Bool, true, some, List, [], ◌∷◌, arith, get_elem?, set, if-elim,
  Option-elim, Option-branches,
}
use zyris_protocol.Core.State.{CallTask, Shared, WriterCmd}
use zyris_protocol.Core.Sending.{put_out}
use zyris_protocol.Core.Serving.{update_call, abort_call}
use zyris_protocol.Core.Ending.Gates.{holds_at, holds_at-set_self, holds_at-none}

-- The task at a place, if there is one, is aborted.
abbrev pub is_aborted : Shared → ℕ → Bool
is_aborted s k = holds_at (λ (call : CallTask). call.aborted) s.calls k

module _ (s t : Shared) where
  -- No task is taken back from its abort.
  unfoldable pub Keeps : Type 0
  Keeps = (k : ℕ) → is_aborted s k ≡ true → is_aborted t k ≡ true

pub same_calls-Keeps : (s t : Shared) → t.calls ≡ s.calls → Keeps s t
unfolding Keeps
same_calls-Keeps s t e k h = ap (λ l. holds_at (λ (call : CallTask). call.aborted) l k) e ∙ h

pub Keeps-trans : (s t u : Shared) → Keeps s t → Keeps t u → Keeps s u
unfolding Keeps
Keeps-trans s t u a b k h = b k (a k h)

-- A call is put in place of one that is no less aborted.
pub aborted-set :
    (calls : List CallTask) (k j : ℕ) (old call : CallTask)
    → get_elem? calls j ≡ some old
    → (old.aborted ≡ true → call.aborted ≡ true)
    → holds_at (λ (c : CallTask). c.aborted) calls k ≡ true
    → holds_at (λ (c : CallTask). c.aborted) (set calls j call) k ≡ true
aborted-set [] k j old call e h q = q
aborted-set (x ∷ xs) zero zero old call e h q = ground arith
aborted-set (x ∷ xs) zero (suc j) old call e h q = q
aborted-set (x ∷ xs) (suc k) zero old call e h q = q
aborted-set (x ∷ xs) (suc k) (suc j) old call e h q = aborted-set xs k j old call e h q

pub abort_call-Keeps : (s : Shared) (k : ℕ) → Keeps s (abort_call s k)
unfolding abort_call update_call Keeps
abort_call-Keeps s j =
    Option-elim (Keeps s) (get_elem? s.calls j) (λ k h. h)
      (λ call found k h.
        aborted-set s.calls k j call (record call { aborted = true }) found (λ _. refl) h)

pub abort_call-hits : (s : Shared) (k : ℕ) → is_aborted (abort_call s k) k ≡ true
unfolding abort_call update_call
abort_call-hits s k =
    Option-branches (λ t. is_aborted t k ≡ true) (get_elem? s.calls k)
      (λ gone. holds_at-none (λ (call : CallTask). call.aborted) s.calls k gone)
      (λ call found. holds_at-set_self (λ (c : CallTask). c.aborted) s.calls k _ refl)

pub put_out_calls : (s : Shared) (cmd : WriterCmd) → (put_out s cmd).calls ≡ s.calls
unfolding put_out
put_out_calls s cmd = if-elim (λ (t : Shared). t.calls ≡ s.calls) s.writer_alive refl refl
