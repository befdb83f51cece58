-- ===== src/Core/Answers/Base.antt =====
-- What a connection owes for a request id, and what keeps it from owing more.
use zyris_protocol.Prelude.{
  ℕ, zero, suc, ◌+◌, ◌≤◌, ◌≡◌, refl, inl, inr, not, ◌&&◌, Option, none, some, List, [], ◌∷◌, ◌++◌,
  arith, ◌==◌, if◌then◌else◌, Bool-cases, get_elem?, set, lookup, remove,
}
use zyris_protocol.Proto.Envelope.{Envelope, res, err}
use zyris_protocol.Proto.Frame.{
  WireMessage, binary, IncomingFrame, control, stream_data, encode_stream_data,
}
use zyris_protocol.Core.State.{WriterCmd, send, close, InflightCall, CallTask, Setting, Shared}
use zyris_protocol.Proto.Frame
use zyris_protocol.Proto.Frame.{encode_control, decode_message, decode_binary}

-- Whether a message answers the request of an id: 1 or 0.
abbrev pub answer : ℕ → Envelope → ℕ
answer id (res j result) = if j == id then 1 else 0
answer id (err j error) = if j == id then 1 else 0
answer id _ = 0

abbrev pub frame_answer : ℕ → Frame.Result IncomingFrame → ℕ
frame_answer id (Frame.ok (control e)) = answer id e
frame_answer id _ = 0

-- As the peer reads it.
abbrev pub cmd_answer : Setting → ℕ → WriterCmd → ℕ
cmd_answer c id (send msg) = frame_answer id (decode_message c.codec msg)
cmd_answer c id (close code reason) = 0

unfoldable pub answers : Setting → ℕ → List WriterCmd → ℕ
answers c id [] = 0
answers c id (cmd ∷ cmds) = cmd_answer c id cmd + answers c id cmds

-- The calls of an id that have no answer yet.
abbrev pub owed : ℕ → CallTask → ℕ
owed id call = if not call.replied && (call.id == id) then 1 else 0

unfoldable pub open_calls : ℕ → List CallTask → ℕ
open_calls id [] = 0
open_calls id (call ∷ calls) = owed id call + open_calls id calls

-- The library reads back every message that the connection sends.
pub record IsReadBack (c : Setting) : Type 0 where
  pub reads_back :
      (e : Envelope) (m : WireMessage)
      → encode_control c.codec e c.serialization ≡ Frame.ok m
      → decode_message c.codec m ≡ Frame.ok (control e)

unfoldable pub id_at : List CallTask → ℕ → Option ℕ
id_at [] k = none
id_at (call ∷ calls) zero = some call.id
id_at (call ∷ calls) (suc k) = id_at calls k

-- Every entry of `inflight` is of a call with its id.
unfoldable pub AreLinked : List CallTask → List (ℕ × InflightCall) → Type 0
AreLinked calls [] = Unit {0}
AreLinked calls ((id, entry) ∷ rest) = (id_at calls entry.task ≡ some id) × AreLinked calls rest

-- The entries of `inflight`, and some more to be kept in sight, are linked, and what was answered
-- and what is still owed is at most `n`.
abbrev pub IsFair : Setting → List (ℕ × InflightCall) → ℕ → ℕ → Shared → Type 0
IsFair c pins id n s =
    (AreLinked s.calls pins × AreLinked s.calls s.inflight)
    × (answers c id s.out + open_calls id s.calls ≤ n)

pub answers-snoc :
    (c : Setting) (id : ℕ) (cmds : List WriterCmd) (cmd : WriterCmd)
    → answers c id (cmds ++ (cmd ∷ [])) ≡ answers c id cmds + cmd_answer c id cmd
unfolding answers
answers-snoc c id [] cmd = omega arith
answers-snoc c id (x ∷ cmds) cmd = omega (arith, answers-snoc c id cmds cmd)

pub open_calls-snoc :
    (id : ℕ) (calls : List CallTask) (call : CallTask)
    → open_calls id (calls ++ (call ∷ [])) ≡ open_calls id calls + owed id call
unfolding open_calls
open_calls-snoc id [] call = omega arith
open_calls-snoc id (x ∷ calls) call = omega (arith, open_calls-snoc id calls call)

pub open_calls-set :
    (id : ℕ) (calls : List CallTask) (k : ℕ) (old new_call : CallTask)
    → get_elem? calls k ≡ some old
    → open_calls id (set calls k new_call) + owed id old ≡ open_calls id calls + owed id new_call
unfolding open_calls
open_calls-set id [] k old new_call h = cc
open_calls-set id (x ∷ calls) zero old new_call h = ground arith
open_calls-set id (x ∷ calls) (suc k) old new_call h =
    omega (arith, open_calls-set id calls k old new_call h)

pub id_at-set :
    (calls : List CallTask) (k j : ℕ) (old new_call : CallTask)
    → get_elem? calls k ≡ some old
    → new_call.id ≡ old.id
    → id_at (set calls k new_call) j ≡ id_at calls j
unfolding id_at
id_at-set [] k j old new_call h e = refl
id_at-set (x ∷ calls) zero zero old new_call h e = ground arith
id_at-set (x ∷ calls) zero (suc j) old new_call h e = refl
id_at-set (x ∷ calls) (suc k) zero old new_call h e = refl
id_at-set (x ∷ calls) (suc k) (suc j) old new_call h e = id_at-set calls k j old new_call h e

pub id_at-snoc :
    (calls : List CallTask) (call : CallTask) (k : ℕ) (id : ℕ)
    → id_at calls k ≡ some id
    → id_at (calls ++ (call ∷ [])) k ≡ some id
unfolding id_at
id_at-snoc [] call k id h = cc
id_at-snoc (x ∷ calls) call zero id h = h
id_at-snoc (x ∷ calls) call (suc k) id h = id_at-snoc calls call k id h

pub id_at-get :
    (calls : List CallTask) (k id : ℕ) (call : CallTask)
    → get_elem? calls k ≡ some call
    → id_at calls k ≡ some id
    → call.id ≡ id
unfolding id_at
id_at-get [] k id call h e = cc
id_at-get (x ∷ calls) zero id call h e = ground arith
id_at-get (x ∷ calls) (suc k) id call h e = id_at-get calls k id call h e

-- Every place keeps its id.
abbrev pub Keeps : List CallTask → List CallTask → Type 0
Keeps calls later = (k id : ℕ) → id_at calls k ≡ some id → id_at later k ≡ some id

pub Keeps-AreLinked :
    (calls later : List CallTask) (m : List (ℕ × InflightCall))
    → Keeps calls later
    → AreLinked calls m
    → AreLinked later m
unfolding AreLinked
Keeps-AreLinked calls later [] h l = tt
Keeps-AreLinked calls later ((id, entry) ∷ m) h (here, rest) =
    (h entry.task id here, Keeps-AreLinked calls later m h rest)

pub remove-AreLinked :
    (calls : List CallTask) (m : List (ℕ × InflightCall)) (id : ℕ)
    → AreLinked calls m
    → AreLinked calls (remove m id)
unfolding AreLinked remove
remove-AreLinked calls [] id l = tt
remove-AreLinked calls ((j, entry) ∷ m) id (here, rest) = elim (Bool-cases (j == id)) [
  | inl hit ↦ rw hit (remove-AreLinked calls m id rest)
  | inr miss ↦ rw miss (here, remove-AreLinked calls m id rest)
]

pub lookup-AreLinked :
    (calls : List CallTask) (m : List (ℕ × InflightCall)) (id : ℕ) (entry : InflightCall)
    → AreLinked calls m
    → lookup m id ≡ some entry
    → id_at calls entry.task ≡ some id
unfolding AreLinked lookup
lookup-AreLinked calls [] id entry l h = cc
lookup-AreLinked calls ((j, e) ∷ m) id entry (here, rest) h =
    ground (arith, lookup-AreLinked calls m id entry rest)
