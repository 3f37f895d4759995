-- ===== src/Crypto/Seal.antt =====
-- The wrappers over AES-GCM: what is encrypted decrypts, and nothing else does.
use lethean.Prelude.{◌≤◌, ◌≡◌, arith, length, Bytes, ok}
use lethean.Crypto.{Aead, aes_gcm_encrypt_aad, aes_gcm_decrypt_aad}

module _ (aead : Aead) (key aad iv : Bytes) where
  pub encrypt_ok :
      (p : Bytes)
      → length key ≡ 32
      → length p ≤ aead.p_max
      → aes_gcm_encrypt_aad aead key p aad iv
        ≡ ok (record { iv = iv; ciphertext = aead.seal key iv aad p })
  unfolding aes_gcm_encrypt_aad
  encrypt_ok p h k = ground arith

  pub decrypt-seal :
      (p : Bytes)
      → length key ≡ 32
      → length iv ≡ 12
      → aes_gcm_decrypt_aad aead key iv (aead.seal key iv aad p) aad ≡ ok p
  unfolding aes_gcm_decrypt_aad
  decrypt-seal p h k = ground (arith, aead.unseal-seal key iv aad p)

  -- A text decrypts to a plaintext exactly when it is the sealing of that plaintext.
  pub decrypt_sound :
      (c : Bytes) {p : Bytes}
      → aes_gcm_decrypt_aad aead key iv c aad ≡ ok p
      → (c ≡ aead.seal key iv aad p) × (length key ≡ 32) × (length iv ≡ 12)
  unfolding aes_gcm_decrypt_aad
  decrypt_sound c {p} h = ground (arith, aead.unseal_sound key iv aad c p)
