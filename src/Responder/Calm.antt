-- ===== src/Responder/Calm.antt =====
-- The functions of the inner context that begin no session and keep its identities
-- (src/spdm_responder.c and what it calls).
use wolf_spdm.Base.{ℕ, Bool, arith}
use wolf_spdm.Transcript.{transcript_add, transcript_hash, sha384_hash}
use wolf_spdm.Crypto.{
  get_random, compute_shared_secret, export_ephemeral_pub_key, generate_ephemeral_key,
  free_ephemeral_key, sign_hash,
}
use wolf_spdm.Kdf.{
  derive_key_iv_pair, derive_from_handshake_secret, compute_verify_data, derive_app_data_keys,
  wipe_handshake_keys, derive_handshake_chain, Dir, req, rsp,
}
use wolf_spdm.Responder.Exchange.{sign_as, build_end_session_ack}
use wolf_spdm.Responder.Clear.{
  build_version, build_error_clear, build_algorithms, build_capabilities, select_version,
}
use wolf_spdm.Context.{Env, Bytes}
use wolf_spdm.Responder.Follows.{Follows, Calm}

pub transcript_add-Calm : (message : Bytes) → Follows Calm (transcript_add message)
unfolding transcript_add
transcript_add-Calm message = record { follows = λ c. ground arith }

pub sha384_hash-Calm : (env : Env) (a b d : Bytes) → Follows Calm (sha384_hash env a b d)
unfolding sha384_hash
sha384_hash-Calm env a b d = record { follows = λ c. ground arith }

pub transcript_hash-Calm : (env : Env) → Follows Calm (transcript_hash env)
unfolding transcript_hash sha384_hash
transcript_hash-Calm env = record { follows = λ c. ground arith }

pub get_random-Calm : (env : Env) (n : ℕ) → Follows Calm (get_random env n)
unfolding get_random
get_random-Calm env n = record { follows = λ c. ground arith }

pub generate_ephemeral_key-Calm : (env : Env) → Follows Calm (generate_ephemeral_key env)
unfolding generate_ephemeral_key free_ephemeral_key
generate_ephemeral_key-Calm env = record { follows = λ c. ground arith }

pub export_ephemeral_pub_key-Calm :
    (env : Env) (m n : ℕ) → Follows Calm (export_ephemeral_pub_key env m n)
unfolding export_ephemeral_pub_key
export_ephemeral_pub_key-Calm env m n = record { follows = λ c. ground arith }

pub compute_shared_secret-Calm :
    (env : Env) (x y : Bytes) → Follows Calm (compute_shared_secret env x y)
unfolding compute_shared_secret
compute_shared_secret-Calm env x y = record { follows = λ c. ground arith }

pub compute_verify_data-Calm :
    (env : Env) (k h : Bytes) → Follows Calm (compute_verify_data env k h)
unfolding compute_verify_data
compute_verify_data-Calm env k h = record { follows = λ c. ground arith }

pub derive_key_iv_pair-Calm :
    (env : Env) (d : Dir) (s : Bytes) → Follows Calm (derive_key_iv_pair env d s)
unfolding derive_key_iv_pair
derive_key_iv_pair-Calm env req s = record { follows = λ c. ground arith }
derive_key_iv_pair-Calm env rsp s = record { follows = λ c. ground arith }

pub derive_from_handshake_secret-Calm :
    (env : Env) (th1 : Bytes) → Follows Calm (derive_from_handshake_secret env th1)
unfolding derive_from_handshake_secret wipe_handshake_keys derive_handshake_chain derive_key_iv_pair
derive_from_handshake_secret-Calm env th1 = record { follows = λ c. ground arith }

pub derive_app_data_keys-Calm : (env : Env) → Follows Calm (derive_app_data_keys env)
unfolding derive_app_data_keys derive_key_iv_pair transcript_hash sha384_hash
derive_app_data_keys-Calm env = record { follows = λ c. ground arith }

pub sign_as-Calm : (env : Env) (p q h : Bytes) → Follows Calm (sign_as env p q h)
unfolding sign_as sign_hash
sign_as-Calm env p q h = record { follows = λ c. ground arith }

pub build_error_clear-Calm : (a b room : ℕ) → Follows Calm (build_error_clear a b room)
unfolding build_error_clear
build_error_clear-Calm a b room = record { follows = λ c. ground arith }

pub build_version-Calm : (room : ℕ) → Follows Calm (build_version room)
unfolding build_version
build_version-Calm room = record { follows = λ c. ground arith }

pub build_capabilities-Calm : (p : Bool) (room : ℕ) → Follows Calm (build_capabilities p room)
unfolding build_capabilities
build_capabilities-Calm p room = record { follows = λ c. ground arith }

pub build_algorithms-Calm : (room : ℕ) → Follows Calm (build_algorithms room)
unfolding build_algorithms
build_algorithms-Calm room = record { follows = λ c. ground arith }

pub build_end_session_ack-Calm : (room : ℕ) → Follows Calm (build_end_session_ack room)
unfolding build_end_session_ack
build_end_session_ack-Calm room = record { follows = λ c. ground arith }

pub select_version-Calm : (v : ℕ) (b : Bool) → Follows Calm (select_version v b)
unfolding select_version
select_version-Calm v b = record { follows = λ c. ground arith }
