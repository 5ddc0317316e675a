-- ===== src/Responder/PskStore.antt =====
-- Who can change the PSK of a responder (src/spdm_responder.c).
use wolf_spdm.Base.{
  ℕ, ◌-◌, ◌≡◌, refl, sym, ap, ◌∙◌, inl, inr, Bool, true, false, not, ◌||◌, some, [], ◌∷◌, ◌++◌,
  arith, ◌==◌, ◌!=◌, Bool-cases, Option-cases, length, take, ◌⊎◌, append-nil, if◌then◌else◌,
}
use wolf_spdm.Context.{Env, Bytes, fail, ok}
use wolf_spdm.Responder.{Resp, Tpm, R, on_ctx}
use wolf_spdm.Responder.Command.{
  resp_psk_clr, resp_psk_set, psk_held, resp_spdmonly, tpm2_cmd, resp_give_pub,
  handle_vendor_defined, vendor_command, resp_get_sts, resp_get_pubk, is_code,
}
use wolf_spdm.Responder.Follows.Absorbs.{Absorbs, Follows-embed}
use wolf_spdm.Responder.Follows.Secured.{Kept, Kept-on_ctx, dispatch_secured-Follows}
use wolf_spdm.Transcript.{sha384_hash}
use wolf_spdm.Responder.Follows.{Steady, Follows, Follows-if, Held}
use wolf_spdm.Responder.Dispatch.{
  handle_message, frame_payload, dispatch_clear, dispatch_secured, take_frame,
}
use wolf_spdm.Bytes.{same_bytes, get16be}
use wolf_spdm.Responder.Follows.Clear.{dispatch_clear-Follows}
use wolf_spdm.Standard.Chain.Trust.{same_bytes-eq}
use wolf_spdm.Types.{psk_max_size, tcg_header_size, not_available, tcg_tag_clear, max_msg_size}
use wolf_spdm.Responder.Follows.Message.{handle_message-Follows, framed}
use wolf_spdm.Responder.Follows.Vendor.{handle_vendor_defined-Follows}
use wolf_spdm.Tcg.{parse_vendor_defined}
use wolf_spdm.Responder.Clear.{resp_decrypt}

-- A vendor command that a frame carries, with its VdCode and payload: a clear frame as it is, a secured
-- one in the record that it holds.
pub record Carries (env : Env) (buf : Bytes) (r : Resp) (vd_code arg : Bytes) : Type 0 where
  pub message : Bytes
  pub parsed : parse_vendor_defined message max_msg_size ≡ ok (vd_code, arg)
  pub carried :
      ((get16be buf ≡ tcg_tag_clear) × (message ≡ frame_payload buf))
      ⊎ ((resp_decrypt env (frame_payload buf) max_msg_size (take_frame buf r.ctx)).0 ≡ ok message)

-- How a frame that carries the commands `Shown` may leave the PSK store: as it was, filled where it was
-- empty, or emptied by a PSK_CLR_ with a ClearAuth of the registered digest.
pub data PskChange (env : Env) (Shown : Bytes → Bytes → Type 0) (r s : Resp) : Type 0 where
  kept : s.psk_store ≡ r.psk_store → PskChange env Shown r s
  provisioned : r.psk_store ≡ [] → PskChange env Shown r s
  cleared :
      (vd_code clear_auth : Bytes)
      → Shown vd_code clear_auth
      → is_code vd_code "PSK_CLR_" ≡ true
      → env.sha384 clear_auth ≡ some r.clear_auth_digest
      → s.psk_store ≡ []
      → PskChange env Shown r s

store : {h k : Held} → k ≡ h → k.psk_store ≡ h.psk_store
store x = ap (λ v. v.psk_store) x

empty_or_not : (xs : Bytes) → (xs ≡ []) ⊎ ((length xs != 0) ≡ true)
empty_or_not [] = inl refl
empty_or_not (x ∷ xs) = inr (ground arith)

module _ (env : Env) (Shown : Bytes → Bytes → Type 0) where
  abbrev Q : Resp → Resp → Type 0
  Q = PskChange env Shown

  PskChange-left : (r s t : Resp) → Kept r s → Q s t → Q r t
  PskChange-left r s t x (kept e) = kept (e ∙ store x)
  PskChange-left r s t x (provisioned e) = provisioned (sym (store x) ∙ e)
  PskChange-left r s t x (cleared v p w k h e) =
      cleared v p w k (h ∙ ap (λ v. some v.clear_auth_digest) x) e

  PskChange-right : (r s t : Resp) → Q r s → Kept s t → Q r t
  PskChange-right r s t (kept e) x = kept (store x ∙ e)
  PskChange-right r s t (provisioned e) x = provisioned e
  PskChange-right r s t (cleared v p w k h e) x = cleared v p w k h (store x ∙ e)

  PskChange-Absorbs : Absorbs Kept Q
  PskChange-Absorbs = record {
    embed = λ r s x. kept (store x);
    left = PskChange-left;
    right = PskChange-right;
  }

  PskChange-Steady : Absorbs Steady Q
  PskChange-Steady = record {
    embed = λ r s x. kept (store x.held);
    left = λ r s t x y. PskChange-left r s t x.held y;
    right = λ r s t x y. PskChange-right r s t x y.held;
  }

  resp_psk_set-PskChange : (payload : Bytes) → Follows Q (resp_psk_set payload)
  unfolding resp_psk_set psk_held
  resp_psk_set-PskChange payload = record {
    follows = λ r. elim (Bool-cases (same_bytes r.psk_store (take psk_max_size payload))) [
      | inl same ↦
          let e = same_bytes-eq r.psk_store (take psk_max_size payload) same in kept (ground arith)
      | inr other ↦ elim (empty_or_not r.psk_store) [
        | inl none_ ↦ provisioned none_
        | inr some_ ↦ kept (ground arith)
      ]
    ];
  }

  resp_psk_clr-PskChange :
      (vd_code payload : Bytes)
      → Shown vd_code payload
      → is_code vd_code "PSK_CLR_" ≡ true
      → Follows Q (resp_psk_clr env payload)
  unfolding resp_psk_clr sha384_hash
  resp_psk_clr-PskChange vd_code payload shown code = record {
    follows = λ r. elim (Option-cases (env.sha384 (payload ++ []))) [
      | inl none_ ↦ kept (ground arith)
      | inr (digest, found) ↦ elim (Bool-cases (same_bytes digest r.clear_auth_digest)) [
        | inl same ↦ elim (Bool-cases (length payload != 32 || not r.psk_provisioned)) [
          | inl bad ↦ kept (ground arith)
          | inr good ↦
              cleared vd_code payload shown code
                (ap env.sha384 (sym (append-nil payload))
                  ∙ (found ∙ ap some (same_bytes-eq digest r.clear_auth_digest same)))
                (ground arith)
        ]
        | inr other ↦ kept (ground arith)
      ]
    ];
  }

  still : {A : Type 0} {m : R A} → Follows Kept m → Follows Q m
  still k = Follows-embed Kept Q PskChange-Absorbs k

  tpm2_cmd-PskChange : (tpm : Tpm) (arg : Bytes) → Follows Q (tpm2_cmd tpm arg)
  unfolding tpm2_cmd
  tpm2_cmd-PskChange tpm arg = record { follows = λ r. kept (ground arith) }

  resp_get_pubk-PskChange : Follows Q resp_get_pubk
  unfolding resp_get_pubk
  resp_get_pubk-PskChange = still (record { follows = λ r. ground arith })

  resp_give_pub-PskChange : (arg : Bytes) → Follows Q (resp_give_pub arg)
  unfolding resp_give_pub
  resp_give_pub-PskChange arg = still (record { follows = λ r. ground arith })

  resp_get_sts-PskChange : Follows Q resp_get_sts
  unfolding resp_get_sts
  resp_get_sts-PskChange = still (record { follows = λ r. refl })

  resp_spdmonly-PskChange : (arg : Bytes) → Follows Q (resp_spdmonly arg)
  unfolding resp_spdmonly
  resp_spdmonly-PskChange arg = record { follows = λ r. kept (ground arith) }

  clr_or_none :
      (vd_code arg : Bytes) (b : Bool)
      → is_code vd_code "PSK_CLR_" ≡ b
      → Shown vd_code arg
      → Follows Q (if b then resp_psk_clr env arg else on_ctx (fail not_available))
  clr_or_none vd_code arg true code shown = resp_psk_clr-PskChange vd_code arg shown code
  clr_or_none vd_code arg false code shown = still (Kept-on_ctx (fail not_available))

  vendor_command-PskChange :
      (tpm : Tpm) (vd_code arg : Bytes)
      → Shown vd_code arg
      → Follows Q (vendor_command env tpm vd_code arg)
  unfolding vendor_command
  vendor_command-PskChange tpm vd_code arg shown =
      Follows-if (is_code vd_code "TPM2_CMD") (tpm2_cmd-PskChange tpm arg) (
        Follows-if (is_code vd_code "GET_PUBK") resp_get_pubk-PskChange (
          Follows-if (is_code vd_code "GIVE_PUB") (resp_give_pub-PskChange arg) (
            Follows-if (is_code vd_code "GET_STS_") resp_get_sts-PskChange (
              Follows-if (is_code vd_code "SPDMONLY") (resp_spdmonly-PskChange arg) (
                Follows-if (is_code vd_code "PSK_SET_") (resp_psk_set-PskChange arg)
                  (clr_or_none vd_code arg (is_code vd_code "PSK_CLR_") refl shown))))))

  pub handle_vendor_defined-PskChange :
      (tpm : Tpm) (secured : Bool) (buf : Bytes) (room : ℕ)
      → ((vd_code arg : Bytes)
          → parse_vendor_defined buf max_msg_size ≡ ok (vd_code, arg)
          → Shown vd_code arg)
      → Follows Q (handle_vendor_defined env tpm secured buf room)
  handle_vendor_defined-PskChange tpm secured buf room shown =
      handle_vendor_defined-Follows Q PskChange-Steady env tpm buf
        (λ vd_code arg parsed. vendor_command-PskChange tpm vd_code arg (shown vd_code arg parsed))
        secured room

module _ (env : Env) (tpm : Tpm) (buf : Bytes) (room : ℕ) (r : Resp) where
  abbrev W : Resp → Resp → Type 0
  W = PskChange env (Carries env buf r)

  dispatched-PskChange :
      (tag : ℕ)
      → get16be buf ≡ tag
      → W
          (framed buf r)
          ((if tag == tcg_tag_clear
              then dispatch_clear env tpm (frame_payload buf) (room - tcg_header_size)
              else dispatch_secured env tpm (frame_payload buf) (room - tcg_header_size))
            (framed buf r)).1
  dispatched-PskChange tag is =
      let payload = frame_payload buf in
      let shown = Carries env buf r in
      elim (Bool-cases (tag == tcg_tag_clear)) [
        | inl clear ↦
            let clear_tag : get16be buf ≡ tcg_tag_clear = ground arith in
            rw clear (
              (dispatch_clear-Follows W (PskChange-Steady env shown) env tpm payload
                  (room - tcg_header_size)
                  (handle_vendor_defined-PskChange env shown tpm false payload
                    (room - tcg_header_size)
                    λ v a parsed. record {
                      message = payload;
                      parsed = parsed;
                      carried = inl (clear_tag, refl);
                    })).follows
                (framed buf r))
        | inr other ↦ rw other (
            dispatch_secured-Follows W (PskChange-Absorbs env shown) env tpm payload
              (room - tcg_header_size) (framed buf r)
              λ plain opened.
                handle_vendor_defined-PskChange env shown tpm true plain max_msg_size
                  λ v a parsed. record { message = plain; parsed = parsed; carried = inr opened })
      ]

  -- Whatever frame comes, in the clear or secured, the PSK in the responder's store afterwards is the
  -- one of before, unless there was none; or there is none now, and the frame carried, as it is or in
  -- the record that the responder opened, a PSK_CLR_ whose ClearAuth has the registered digest as its
  -- SHA-384.
  pub handle_message-PskChange :
      PskChange env (Carries env buf r) r (handle_message env tpm buf room r).1
  handle_message-PskChange =
      handle_message-Follows W (PskChange-Steady env (Carries env buf r)) env tpm buf room r
        (dispatched-PskChange (get16be buf) refl)
