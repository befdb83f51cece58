-- ===== src/Enroll/Poll.antt =====
-- crates/zyris-core/src/enroll/protocol.rs: how often a node asks whether it was approved. A
-- `Duration` is its number of seconds: all of them are whole.
use zyris_protocol.Prelude.{
  ℕ, ◌+◌, ◌≤◌, max, ◌≡◌, refl, Bool, false, ◌&&◌, ◌||◌, Option, none, some, List, [], ◌∷◌, ◌++◌,
  arith, ltb, leb, ◌==◌, if◌then◌else◌, Text, codes, text_eq, if-elim,
}
use zyris_protocol.Prelude.Int.{ℤ, pos_part}

abbrev pub min_poll_interval : ℕ
min_poll_interval = 1

abbrev pub max_poll_interval : ℕ
max_poll_interval = 60

abbrev pub slow_down_step : ℕ
slow_down_step = 5

pub record ErrorResponse : Type 0 where
  pub error : Text
  pub error_description : Option Text
  pub interval : Option ℤ
  pub status : Option ℕ

unfoldable pub is_transient : ErrorResponse → Bool
is_transient response = elim response.status [
  | none ↦ false
  | some status ↦ (status == 429) || (leb 500 status && ltb status 600)
]

pub data PollOutcome : Type 0 where
  keep_waiting : ℕ → PollOutcome
  expired denied : PollOutcome
  fatal : Text → PollOutcome

pub record PollState : Type 0 where
  pub interval : ℕ

-- `Ord::clamp`.
unfoldable pub clamp_interval : ℕ → ℕ
clamp_interval interval =
    if ltb interval min_poll_interval
    then min_poll_interval
    else if ltb max_poll_interval interval
    then max_poll_interval
    else interval

-- `PollState::new`.
unfoldable pub new : ℤ → PollState
unfolding clamp_interval
new interval_secs = record { interval = clamp_interval (pos_part interval_secs) }

unfoldable pub adopt : PollState → ℤ → PollState
unfolding clamp_interval
adopt state interval_secs = record {
  interval = max state.interval (clamp_interval (pos_part interval_secs));
}

unfoldable pub widen : PollState → PollState
unfolding clamp_interval
widen state = record { interval = clamp_interval (state.interval + slow_down_step) }

adopt_hint : PollState → Option ℤ → PollState
adopt_hint state none = state
adopt_hint state (some interval) = adopt state interval

adopt_or_widen : PollState → Option ℤ → PollState
adopt_or_widen state none = widen state
adopt_or_widen state (some interval) = adopt state interval

described : Text → Option Text → Text
described error none = error
described error (some description) = error ++ (codes ": " ++ description)

keep : PollState → PollState × PollOutcome
keep state = (state, keep_waiting state.interval)

-- `PollState::on_error`.
unfoldable pub on_error : PollState → ErrorResponse → PollState × PollOutcome
unfolding adopt widen is_transient adopt_hint adopt_or_widen described keep
on_error state response =
    if text_eq response.error (codes "authorization_pending")
    then keep (adopt_hint state response.interval)
    else if text_eq response.error (codes "slow_down")
    then keep (adopt_or_widen state response.interval)
    else if text_eq response.error (codes "expired_token")
    then (state, expired)
    else if text_eq response.error (codes "access_denied")
    then (state, denied)
    else if is_transient response
    then keep (widen state)
    else (state, fatal (described response.error response.error_description))

-- The states of one attempt, as the answers come.
unfoldable pub poll_all : PollState → List ErrorResponse → PollState
unfolding on_error
poll_all state [] = state
poll_all state (r ∷ rs) = poll_all (on_error state r).0 rs

pub record IsPolite (s : PollState) : Type 0 where
  pub slow_enough : min_poll_interval ≤ s.interval
  pub soon_enough : s.interval ≤ max_poll_interval

-- A state that follows another never asks more often.
pub record Follows (s t : PollState) : Type 0 where
  pub polite : IsPolite t
  pub no_faster : s.interval ≤ t.interval

new-IsPolite : (i : ℤ) → IsPolite (new i)
unfolding new clamp_interval
new-IsPolite i = ground arith

adopt-Follows : (s : PollState) (i : ℤ) → IsPolite s → Follows s (adopt s i)
unfolding adopt clamp_interval
adopt-Follows s i p = ground arith

widen-Follows : (s : PollState) → IsPolite s → Follows s (widen s)
unfolding widen clamp_interval
widen-Follows s p = ground arith

stay-Follows : (s : PollState) → IsPolite s → Follows s s
stay-Follows s p = ground arith

adopt_hint-Follows : (s : PollState) (o : Option ℤ) → IsPolite s → Follows s (adopt_hint s o)
unfolding adopt_hint
adopt_hint-Follows s none p = stay-Follows s p
adopt_hint-Follows s (some i) p = adopt-Follows s i p

adopt_or_widen-Follows :
    (s : PollState) (o : Option ℤ) → IsPolite s → Follows s (adopt_or_widen s o)
unfolding adopt_or_widen
adopt_or_widen-Follows s none p = widen-Follows s p
adopt_or_widen-Follows s (some i) p = adopt-Follows s i p

-- What an outcome says of the state that it comes with.
abbrev pub Tells : PollState → PollOutcome → Type 0
Tells s (keep_waiting d) = d ≡ s.interval
Tells s _ = Unit {0}

abbrev pub IsStep : PollState → PollState × PollOutcome → Type 0
IsStep s r = Follows s r.0 × Tells r.0 r.1

on_error-IsStep : (s : PollState) (r : ErrorResponse) → IsPolite s → IsStep s (on_error s r)
unfolding on_error keep
on_error-IsStep s r p =
    let P = λ (t : PollState × PollOutcome). IsStep s t in
    if-elim P (text_eq r.error (codes "authorization_pending"))
      (adopt_hint-Follows s r.interval p, refl)
      (if-elim P (text_eq r.error (codes "slow_down")) (adopt_or_widen-Follows s r.interval p, refl)
        (if-elim P (text_eq r.error (codes "expired_token")) (stay-Follows s p, tt)
          (if-elim P (text_eq r.error (codes "access_denied")) (stay-Follows s p, tt)
            (if-elim P (is_transient r) (widen-Follows s p, refl) (stay-Follows s p, tt)))))

poll_all-Follows :
    (rs : List ErrorResponse) (s : PollState) → IsPolite s → Follows s (poll_all s rs)
unfolding poll_all
poll_all-Follows [] s p = stay-Follows s p
poll_all-Follows (r ∷ rs) s p =
    let (one, told) = on_error-IsStep s r p in
    let more = poll_all-Follows rs (on_error s r).0 one.polite in
    record { polite = more.polite; no_faster = omega (arith, one.no_faster, more.no_faster) }

-- Whatever interval the server names first, and whatever it answers then: after any answers a node
-- waits at least one second and at most sixty, and at least as long as before them; and when it is
-- told to keep waiting, it is the interval of the state that it waits.
pub on_error-poll_all :
    (first : ℤ) (before : List ErrorResponse) (r : ErrorResponse)
    → let s = poll_all (new first) before in IsStep s (on_error s r)
on_error-poll_all first before r =
    on_error-IsStep (poll_all (new first) before) r
      (poll_all-Follows before (new first) (new-IsPolite first)).polite
