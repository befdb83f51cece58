-- ===== src/Core/Capabilities/Revoked.antt =====
-- A change that takes a name ends the calls that run under it, on every open connection.
use zyris_protocol.Prelude.{
  ℕ, ◌≡◌, refl, sym, ◌∙◌, subst, Bool, true, false, ◌||◌, Option, List, [], ◌∷◌, ◌++◌, arith, ◌==◌,
  Text, codes, get_elem?, if-elim, if-cases, Option-elim, remove,
}
use zyris_protocol.Proto.Error.{WireError, new, capability_unavailable}
use zyris_protocol.Proto.Envelope.{Envelope, err, s_err}
use zyris_protocol.Proto.Frame
use zyris_protocol.Proto.Frame.{WireMessage, encode_control}
use zyris_protocol.Core.State.{Setting, Shared, WriterCmd, send, InflightCall}
use zyris_protocol.Core.Sending.{put_out, send_envelope, mark_replied}
use zyris_protocol.Core.Serving.{update_call, abort_call}
use zyris_protocol.Core.Requests.{
  is_victim, victims, remove_all, revoke_call, revoke_all, revoke_inflight,
}

unfoldable pub AreSpared : Text → Option ℕ → List (ℕ × InflightCall) → Type 0
AreSpared name caller [] = Unit {0}
AreSpared name caller ((id, entry) ∷ m) =
    (is_victim name caller entry ≡ false) × AreSpared name caller m

unfoldable pub has_id : ℕ → List (ℕ × InflightCall) → Bool
has_id j [] = false
has_id j ((id, entry) ∷ m) = (id == j) || has_id j m

module _ (name : Text) (caller : Option ℕ) where
  -- Each victim of the map is among the chosen.
  Covers : List (ℕ × InflightCall) → List (ℕ × InflightCall) → Type 0
  Covers chosen [] = Unit {0}
  Covers chosen ((id, entry) ∷ m) =
      (is_victim name caller entry ≡ true → has_id id chosen ≡ true) × Covers chosen m

  Covers-cons :
      (j : ℕ) (x : InflightCall) (chosen m : List (ℕ × InflightCall))
      → Covers chosen m
      → Covers ((j, x) ∷ chosen) m
  unfolding Covers has_id
  Covers-cons j x chosen [] h = tt
  Covers-cons j x chosen ((id, entry) ∷ m) (covered, h) =
      ((λ v. ground (arith, covered v)), Covers-cons j x chosen m h)

  Covers-victims : (m : List (ℕ × InflightCall)) → Covers (victims name caller m) m
  unfolding Covers victims has_id
  Covers-victims [] = tt
  Covers-victims ((id, entry) ∷ m) =
      if-cases
        (λ chosen. (is_victim name caller entry ≡ true → has_id id chosen ≡ true) × Covers chosen m)
        (is_victim name caller entry)
        (λ v.
          ((λ _. ground arith), Covers-cons id entry (victims name caller m) m (Covers-victims m)))
        (λ v. ((λ w. ground arith), Covers-victims m))

  Covers-remove :
      (j : ℕ) (x : InflightCall) (chosen m : List (ℕ × InflightCall))
      → Covers ((j, x) ∷ chosen) m
      → Covers chosen (remove m j)
  unfolding Covers has_id remove
  Covers-remove j x chosen [] h = tt
  Covers-remove j x chosen ((id, entry) ∷ m) (covered, h) =
      if-cases (Covers chosen) (id == j) (λ same. Covers-remove j x chosen m h)
        (λ other. ((λ v. ground (arith, covered v)), Covers-remove j x chosen m h))

  Covers-AreSpared : (m : List (ℕ × InflightCall)) → Covers [] m → AreSpared name caller m
  unfolding Covers AreSpared has_id
  Covers-AreSpared [] h = tt
  Covers-AreSpared ((id, entry) ∷ m) (covered, h) = (ground arith, Covers-AreSpared m h)

  remove_all-AreSpared :
      (chosen m : List (ℕ × InflightCall))
      → Covers chosen m
      → AreSpared name caller (remove_all m chosen)
  unfolding remove_all
  remove_all-AreSpared [] m h = Covers-AreSpared m h
  remove_all-AreSpared ((j, x) ∷ chosen) m h =
      remove_all-AreSpared chosen (remove m j) (Covers-remove j x chosen m h)

remove-AreSpared :
    (name : Text) (caller : Option ℕ) (j : ℕ) (m : List (ℕ × InflightCall))
    → AreSpared name caller m
    → AreSpared name caller (remove m j)
unfolding AreSpared remove
remove-AreSpared name caller j [] h = tt
remove-AreSpared name caller j ((id, entry) ∷ m) (spared, h) =
    if-elim (AreSpared name caller) (id == j) (remove-AreSpared name caller j m h)
      (spared, remove-AreSpared name caller j m h)

still-AreSpared :
    (name : Text) (caller : Option ℕ) (chosen m : List (ℕ × InflightCall))
    → AreSpared name caller m
    → AreSpared name caller (remove_all m chosen)
unfolding remove_all
still-AreSpared name caller [] m h = h
still-AreSpared name caller ((j, x) ∷ chosen) m h =
    still-AreSpared name caller chosen (remove m j) (remove-AreSpared name caller j m h)

-- Sending and aborting leave the entries of calls and the served names.
pub record Leaves (s t : Shared) : Type 0 where
  pub inflight : t.inflight ≡ s.inflight
  pub caps : t.caps ≡ s.caps

Leaves-trans : (s t u : Shared) → Leaves s t → Leaves t u → Leaves s u
Leaves-trans s t u a b = record { inflight = b.inflight ∙ a.inflight; caps = b.caps ∙ a.caps }

put_out-Leaves : (s : Shared) (cmd : WriterCmd) → Leaves s (put_out s cmd)
unfolding put_out
put_out-Leaves s cmd =
    if-elim (Leaves s) s.writer_alive (record { inflight = refl; caps = refl })
      (record { inflight = refl; caps = refl })

abort_call-Leaves : (s t : Shared) (k : ℕ) → Leaves s t → Leaves s (abort_call t k)
unfolding abort_call update_call
abort_call-Leaves s t k h =
    Option-elim (Leaves s) (get_elem? t.calls k) h
      (λ call found. record { inflight = h.inflight; caps = h.caps })

module _ (c : Setting) where
  sent-Leaves :
      (s : Shared) (o : Frame.Result WireMessage)
      → Leaves s (elim o [ Frame.err e ↦ s | Frame.ok msg ↦ put_out s (send msg) ])
  sent-Leaves s (Frame.err e) = record { inflight = refl; caps = refl }
  sent-Leaves s (Frame.ok msg) = put_out-Leaves s (send msg)

  pub send_envelope-Leaves : (s : Shared) (e : Envelope) → Leaves s (send_envelope c s e)
  unfolding send_envelope
  send_envelope-Leaves s e = sent-Leaves s (encode_control c.codec e c.serialization)

  revoke_call-Leaves :
      (s : Shared) (id : ℕ) (entry : InflightCall) (error : WireError)
      → Leaves s (revoke_call c s id entry error)
  unfolding revoke_call mark_replied
  revoke_call-Leaves s id entry error =
      let here : Leaves s s = record { inflight = refl; caps = refl } in
      let P = λ (t : Shared). Leaves s (abort_call t entry.task) in
      Option-elim (Leaves s) (get_elem? s.calls entry.task) here (λ call found.
        if-elim P call.replied
          (Option-elim P entry.stream (abort_call-Leaves s s entry.task here) (λ stream streamed.
            let sent = send_envelope c s (s_err stream error) in
            let l = send_envelope-Leaves s (s_err stream error) in
            abort_call-Leaves s (record sent { credits = remove sent.credits stream }) entry.task
              (record { inflight = l.inflight; caps = l.caps })))
          (let marked = mark_replied c s entry.task call in
            let l = send_envelope-Leaves marked (err id error) in
            abort_call-Leaves s (send_envelope c marked (err id error)) entry.task
              (record { inflight = l.inflight; caps = l.caps })))

  revoke_all-Leaves :
      (chosen : List (ℕ × InflightCall)) (s : Shared) (error : WireError)
      → Leaves s (revoke_all c s chosen error)
  unfolding revoke_all
  revoke_all-Leaves [] s error = record { inflight = refl; caps = refl }
  revoke_all-Leaves ((id, entry) ∷ rest) s error =
      let next = revoke_call c s id entry error in
      Leaves-trans s next (revoke_all c next rest error) (revoke_call-Leaves s id entry error)
        (revoke_all-Leaves rest next error)

  pub revoke_inflight_inflight :
      (s : Shared) (name : Text) (caller : Option ℕ)
      → (revoke_inflight c s name caller).inflight
        ≡ remove_all s.inflight (victims name caller s.inflight)
  unfolding revoke_inflight
  revoke_inflight_inflight s name caller =
      let chosen = victims name caller s.inflight in
      (revoke_all-Leaves chosen (record s { inflight = remove_all s.inflight chosen })
        (new capability_unavailable
          (codes "capability " ++ (name ++ codes " was revoked")))).inflight

  -- A revoked capability has no calls but the one that revokes it.
  pub revoke_inflight-AreSpared :
      (s : Shared) (name : Text) (caller : Option ℕ)
      → AreSpared name caller (revoke_inflight c s name caller).inflight
  revoke_inflight-AreSpared s name caller =
      subst (AreSpared name caller) (sym (revoke_inflight_inflight s name caller)) (
        remove_all-AreSpared name caller (victims name caller s.inflight) s.inflight
          (Covers-victims name caller s.inflight))

  pub revoke_inflight_keeps :
      (s : Shared) (name other : Text) (caller : Option ℕ)
      → AreSpared other caller s.inflight
      → AreSpared other caller (revoke_inflight c s name caller).inflight
  revoke_inflight_keeps s name other caller h =
      subst (AreSpared other caller) (sym (revoke_inflight_inflight s name caller))
        (still-AreSpared other caller (victims name caller s.inflight) s.inflight h)

  pub revoke_inflight_caps :
      (s : Shared) (name : Text) (caller : Option ℕ)
      → (revoke_inflight c s name caller).caps ≡ s.caps
  unfolding revoke_inflight
  revoke_inflight_caps s name caller =
      let chosen = victims name caller s.inflight in
      (revoke_all-Leaves chosen (record s { inflight = remove_all s.inflight chosen })
        (new capability_unavailable (codes "capability " ++ (name ++ codes " was revoked")))).caps
