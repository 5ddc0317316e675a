-- ===== src/Tests/Responders.antt =====
-- The responder on concrete frames.
use wolf_spdm.Base.{
  ℕ, ◌+◌, ◌≡◌, refl, ◌≢◌, true, false, some, [], ◌∷◌, ◌++◌, arith, length, drop, replicate,
}
use wolf_spdm.Context.{Bytes, ok}
use wolf_spdm.Responder.{Tpm, Resp}
use wolf_spdm.Bytes.{
  get16be, get32be, get32le, get64le, get16le, same_bytes, set16le, set32le, set64le,
}
use wolf_spdm.Responder.Dispatch.{
  check_frame, handle_message, frame_payload, take_frame, dispatch_secured, no_keys, secured_answer,
  guarded_finish, secured_close,
}
use wolf_spdm.Responder.Gate.{Gated, handle_message-Gated}
use wolf_spdm.Responder.PskStore.{PskChange, handle_message-PskChange, Carries}
use wolf_spdm.Types.{
  state_connected, tcg_tag_clear, tcg_tag_secured, state_key_ex, state_init, tcg_header_size,
  max_msg_size, nations_psk, hash_size, ecc_key_size, state_version,
}
use wolf_spdm.Kdf.{
  codes, zeros, compute_verify_data, derive_app_data_keys, derive_key_iv_pair, hkdf_expand_label,
  bin_concat, bin_concat_prefix,
}
use wolf_spdm.Tests.{toy_ctx, toy_env}
use wolf_spdm.Responder.Clear.{resp_decrypt, swap_data_dir, resp_encrypt}
use wolf_spdm.Responder.Promotion.{Promotes}
use wolf_spdm.Responder.Promotion.Message.{handle_message-Promotes}
use wolf_spdm.Responder.Answer.{version_rsp, get_version_answered}
use wolf_spdm.Secured.{
  decrypt_internal, decrypt_record, decrypt_tcg, open_record, tcg_payload, encrypt_internal,
  encrypt_record, encrypt_tcg, tcg_pad_len, seal_record, tcg_record_header,
}
use wolf_spdm.Responder.Handshake.{handle_psk_finish}
use wolf_spdm.Responder.Exchange.{finish_answer}
use wolf_spdm.Transcript.{transcript_add, overflows, transcript_hash, sha384_hash}
use wolf_spdm.Crypto.{get_random}

-- A responder in the PSK mode, and a TPM that answers with its command.
abbrev pub toy_resp : Resp
toy_resp = record {
  ctx = record toy_ctx { state = state_init; mode = nations_psk; session_id = 0; spdm_version = 0 };
  use_tcg = true;
  use_psk = true;
  has_id_key = false;
  initialized = true;
  spdm_only_lock = false;
  psk_provisioned = true;
  clear_auth_set = false;
  session_asym = false;
  pending_asym = false;
  clear_auth_digest = zeros hash_size;
  id_priv_key = zeros ecc_key_size;
  id_pub_key = [];
  psk_store = replicate 64 1;
  psk_hint_store = [];
  has_tpm_cb = true;
  tpm_log = [];
}

abbrev pub toy_tpm : Tpm
toy_tpm = λ log command room. some command

-- A frame with the tag byte `tag` and fewer than 240 bytes.
abbrev toy_frame : ℕ → Bytes → Bytes
toy_frame tag payload = tag ∷ 1 ∷ 0 ∷ 0 ∷ 0 ∷ (16 + length payload) ∷ (replicate 10 0 ++ payload)

-- GET_VERSION in the clear.
abbrev toy_get_version : Bytes
toy_get_version = toy_frame 0x81 (0x10 ∷ 0x84 ∷ 0 ∷ 0 ∷ [])

toy_clear : get16be toy_get_version ≡ tcg_tag_clear
unfolding get16be
toy_clear = refl

toy_passes : (check_frame toy_get_version toy_resp).0 ≡ ok tt
unfolding check_frame get16be get32be
toy_passes = refl

toy_payload : frame_payload toy_get_version ≡ 0x10 ∷ 0x84 ∷ 0 ∷ 0 ∷ []
unfolding frame_payload get32be
toy_payload = refl

get_version_answered_example :
    (out : Bytes) × (s : Resp) × (handle_message toy_env toy_tpm toy_get_version 64 toy_resp
      ≡ (ok out, s))
    × (drop tcg_header_size out ≡ version_rsp)
    × (s.ctx.state ≡ state_version)
    × (s.ctx.spdm_version ≡ 0)
    × (s.ctx.session_id ≡ 0)
    × (s.ctx.transcript ≡ frame_payload toy_get_version ++ version_rsp)
get_version_answered_example =
    get_version_answered toy_env toy_tpm toy_get_version 64 toy_resp toy_passes toy_clear
      (rw toy_payload (omega arith)) (rw toy_payload (omega arith)) (rw toy_payload refl)
      (omega arith)

-- TPM2_CMD in the clear.
abbrev toy_tpm_clear : Bytes
toy_tpm_clear =
    toy_frame 0x81 (0x12 ∷ 0xFE ∷ 0 ∷ 0 ∷ 1 ∷ 0 ∷ 0 ∷ 10 ∷ 0 ∷ (codes "TPM2_CMD" ++ (1 ∷ 2 ∷ [])))

toy_tpm_tag : get16be toy_tpm_clear ≡ tcg_tag_clear
unfolding get16be
toy_tpm_tag = refl

handle_message-Gated_example :
    Gated toy_resp (handle_message toy_env toy_tpm toy_tpm_clear 64 toy_resp).1
handle_message-Gated_example =
    handle_message-Gated toy_env toy_tpm toy_tpm_clear 64 toy_resp toy_tpm_tag

-- PSK_CLR_ in the clear.
abbrev toy_clr : Bytes
toy_clr =
    toy_frame 0x81 (0x12 ∷ 0xFE ∷ 0 ∷ 0 ∷ 1 ∷ 0 ∷ 0 ∷ 40 ∷ 0 ∷ (codes "PSK_CLR_" ++ replicate 32 5))

handle_message-PskChange_example :
    PskChange toy_env
      (Carries toy_env toy_clr toy_resp)
      toy_resp
      (handle_message toy_env toy_tpm toy_clr 64 toy_resp).1
handle_message-PskChange_example = handle_message-PskChange toy_env toy_tpm toy_clr 64 toy_resp

-- A responder that waits for PSK_FINISH, and the record with it.
abbrev pub toy_key_ex : Resp
toy_key_ex = record toy_resp {
  ctx = record toy_ctx { state = state_key_ex; mode = nations_psk; session_id = 0xFFFE0001 };
}

abbrev toy_finish : Bytes
toy_finish = toy_frame 0x82 (
    1
    ∷ 0
    ∷ 0xFE
    ∷ 0xFF
    ∷ (replicate 8 0
        ++ (80
            ∷ 0
            ∷ 52
            ∷ 0
            ∷ 0x12
            ∷ 0xE7
            ∷ 0
            ∷ 0
            ∷ (replicate 48 48 ++ (replicate 10 0 ++ replicate 16 9)))))

toy_before : toy_key_ex.ctx.state ≢ state_connected
toy_before h = absurd (omega (arith, h))

toy_begins :
    (handle_message toy_env toy_tpm toy_finish 256 toy_key_ex).1.ctx.state ≡ state_connected
unfolding handle_message check_frame get16be get32be dispatch_secured no_keys take_frame
    resp_decrypt decrypt_internal decrypt_record swap_data_dir decrypt_tcg frame_payload get32le
    get64le get16le open_record tcg_payload secured_answer guarded_finish handle_psk_finish
    finish_answer transcript_add overflows transcript_hash sha384_hash compute_verify_data
    same_bytes secured_close resp_encrypt encrypt_internal encrypt_record encrypt_tcg tcg_pad_len
    get_random seal_record tcg_record_header set16le set32le set64le derive_app_data_keys
    derive_key_iv_pair hkdf_expand_label bin_concat bin_concat_prefix
toy_begins = refl

handle_message-Promotes_example :
    (get16be toy_finish ≡ tcg_tag_secured)
    × (plain : Bytes) × ((resp_decrypt toy_env
          (frame_payload toy_finish)
          max_msg_size
          (take_frame toy_finish toy_key_ex.ctx)).0
        ≡ ok plain)
    × Promotes toy_env toy_key_ex (handle_message toy_env toy_tpm toy_finish 256 toy_key_ex).1 plain
handle_message-Promotes_example =
    handle_message-Promotes toy_env toy_tpm toy_finish 256 toy_key_ex toy_before toy_begins
