-- ===== src/Transcript/Bound.antt =====
-- The transcript buffer of src/spdm_transcript.c.
use wolf_spdm.Context.{Bytes, Ctx, ok, err}
use wolf_spdm.Transcript.{transcript_add, overflows}
use wolf_spdm.Types.{max_transcript, buffer_small}
use wolf_spdm.Base.{◌+◌, ◌≤◌, ◌<◌, ◌≡◌, ◌++◌, arith, length, length-append}

-- On a transcript within its bound, transcript_add either appends the whole message and keeps the
-- bound, or refuses it with buffer_small and leaves the context alone, the latter exactly when the
-- message does not fit.
pub transcript_add_all_or_nothing :
    (c : Ctx) (message : Bytes)
    → length c.transcript ≤ max_transcript
    → (length (transcript_add message c).1.transcript ≤ max_transcript)
      × (length c.transcript + length message ≤ max_transcript
          → transcript_add message c ≡ (ok tt, record c { transcript = c.transcript ++ message }))
      × (max_transcript < length c.transcript + length message
          → transcript_add message c ≡ (err buffer_small, c))
unfolding transcript_add overflows
transcript_add_all_or_nothing c message bound =
    (ground (arith, length-append c.transcript message), ground arith, ground arith)
