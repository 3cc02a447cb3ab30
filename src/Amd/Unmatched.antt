-- ===== src/Amd/Unmatched.antt =====
-- app/voice/amd.py and app/voice/persistence.py together: whether a verdict finds its call.
use dunning_agent.Prelude.{
  ℕ, String, Option, none, some, List, [], ◌∷◌, ◌++◌, ◌≡◌, refl, ◌==◌, filter, All, Bool-cases,
  Option-cases, inl, inr,
}
use dunning_agent.Prelude.Text.{Codes}
use dunning_agent.Model.{Settings, VoiceCall}
use dunning_agent.World.{World, Env, Exn, ok, get_case}
use dunning_agent.Calls.{open_call_record, new_call}
use dunning_agent.Amd.{is_call, call_by_sid, apply_amd_result}

-- The column `call_id` is empty in every row.
abbrev pub HasNoSids : List VoiceCall → Type 0
HasNoSids calls = All (λ call. call.call_id ≡ none) calls

filter-HasNoSids :
    (call_sid : Codes) (calls : List VoiceCall)
    → HasNoSids calls
    → filter (is_call call_sid) calls ≡ []
filter-HasNoSids call_sid [] h = refl
filter-HasNoSids call_sid (call ∷ calls) h = rw h.0 (filter-HasNoSids call_sid calls h.1)

snoc-HasNoSids :
    (calls : List VoiceCall) (call : VoiceCall)
    → HasNoSids calls
    → call.call_id ≡ none
    → HasNoSids (calls ++ call ∷ [])
snoc-HasNoSids [] call h e = (e, tt)
snoc-HasNoSids (c ∷ calls) call h e = (h.0, snoc-HasNoSids calls call h.1 e)

open_call_record-HasNoSids :
    (env : Env) (settings : Settings) (trouble : Option Exn) (reason : Exn → String) (id : Option ℕ)
    (room_name : String) (dialled_number : Option String) (provider : String) (w : World)
    → HasNoSids w.db.voice_calls
    → HasNoSids
        (open_call_record env settings trouble reason id room_name dialled_number provider
          w).1.db.voice_calls
unfolding open_call_record new_call
open_call_record-HasNoSids env settings trouble reason none room_name dialled_number provider w h =
    h
open_call_record-HasNoSids env settings trouble reason (some id) room_name dialled_number provider w
      h =
    elim (Bool-cases (id == 0)) [
      | inl z ↦ rw z h
      | inr z ↦ elim (Option-cases (get_case id w.db)) [
        | inl e ↦ rw (z, e) h
        | inr (case, e) ↦ elim (Option-cases trouble) [
          | inl t ↦ rw (z, e, t) (snoc-HasNoSids w.db.voice_calls _ h refl)
          | inr (x, t) ↦ rw (z, e, t) h
        ]
      ]
    ]

-- While no row has a SID, and a call that is opened adds none, Twilio's verdict is applied to nothing:
-- whoever answered, the call stays as it was opened and the attempt stays spent.
pub open_call_record-apply_amd_result :
    (env : Env) (settings : Settings) (trouble : Option Exn) (reason : Exn → String) (id : Option ℕ)
    (room_name : String) (dialled_number : Option String) (provider : String) (call_sid : Codes)
    (answered_by : Option Codes) (w : World)
    → HasNoSids w.db.voice_calls
    → let opened =
        open_call_record env settings trouble reason id room_name dialled_number provider w in
      HasNoSids opened.1.db.voice_calls
      × (apply_amd_result call_sid answered_by opened.1 ≡ (ok none, opened.1))
unfolding apply_amd_result call_by_sid
open_call_record-apply_amd_result env settings trouble reason id room_name dialled_number provider
      call_sid answered_by w h =
    let kept =
      open_call_record-HasNoSids env settings trouble reason id room_name dialled_number provider w
        h in
    (kept, rw (filter-HasNoSids call_sid _ kept) refl)
