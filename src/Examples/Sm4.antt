-- ===== src/Examples/Sm4.antt =====
-- src/sm4: test vectors and instances.
use libsmx.Base.{map, get_or, ◌≡◌, refl, [], ◌∷◌, ◌++◌, replicate, arith}
use libsmx.Base.Words.{word_of_be, Bytes, from_be_bytes, to_be_bytes}
use libsmx.Base.Outcome.{ok, ◌>>=◌}
use libsmx.Sm4.Cipher.Sbox.{
  sbox_ct, sbox_circuit, input_layer, top_layer, middle_layer, bottom_layer, output_layer,
}
use libsmx.Sm4.Cipher.{
  tau, t_enc, t_key, new, expand_key, expand_rounds, round, rounds, reverse_state, load_block,
  store_block, encrypt_rounds, encrypt_block, decrypt_block,
}
use libsmx.Sm4.Cipher.Lanes.{tau-eq-sbox_ct}
use libsmx.Sm4.Cipher.Table.{sbox_table, sbox_ct-eq-table}
use libsmx.Sm4.Cipher.RoundTrip.{decrypt_block-encrypt_block}
use libsmx.Sm4.Padding.{pkcs7_pad, pkcs7_unpad, pad, pkcs7_padding}
use libsmx.Sm4.Padding.Laws.{pkcs7_unpad-pkcs7_pad}
use libsmx.Sm4.Modes.Basic.{sm4_encrypt_cbc_pkcs7, sm4_decrypt_cbc_pkcs7}
use libsmx.Sm4.Modes.Basic.RoundTrip.{sm4_decrypt_cbc_pkcs7-sm4_encrypt_cbc_pkcs7}

abbrev sample_key : Bytes
sample_key =
    0x01 ∷ 0x23 ∷ 0x45 ∷ 0x67 ∷ 0x89 ∷ 0xab ∷ 0xcd ∷ 0xef ∷ 0xfe ∷ 0xdc ∷ 0xba ∷ 0x98 ∷ 0x76 ∷ 0x54
    ∷ 0x32 ∷ 0x10 ∷ []

abbrev hello : Bytes
hello = 72 ∷ 101 ∷ 108 ∷ 108 ∷ 111 ∷ []

-- The vector of `test_encrypt_vector` in cipher.rs.
encrypt_vector :
    encrypt_block (new sample_key) sample_key
    ≡ 0x68 ∷ 0x1e ∷ 0xdf ∷ 0x34 ∷ 0xd2 ∷ 0x06 ∷ 0x96 ∷ 0x5e ∷ 0x86 ∷ 0xb3 ∷ 0xe9 ∷ 0x4f ∷ 0x53
      ∷ 0x6e ∷ 0x42 ∷ 0x46 ∷ []
unfolding new expand_key expand_rounds t_key t_enc tau sbox_circuit input_layer top_layer
    middle_layer bottom_layer output_layer to_be_bytes from_be_bytes encrypt_block encrypt_rounds
    rounds round reverse_state load_block store_block
encrypt_vector = refl

decrypt_block-encrypt_block_example :
    decrypt_block (new sample_key) (encrypt_block (new sample_key) sample_key) ≡ sample_key
decrypt_block-encrypt_block_example =
    decrypt_block-encrypt_block (new sample_key) sample_key (refl, omega arith)

pkcs7_unpad-pkcs7_pad_example : pkcs7_unpad (pkcs7_pad hello 16) ≡ ok hello
pkcs7_unpad-pkcs7_pad_example = pkcs7_unpad-pkcs7_pad hello

padded_hello : pad hello pkcs7_padding ≡ ok (hello ++ replicate 11 11)
unfolding pad pkcs7_pad
padded_hello = refl

sm4_decrypt_cbc_pkcs7_example :
    (sm4_encrypt_cbc_pkcs7 sample_key sample_key hello
      >>= sm4_decrypt_cbc_pkcs7 sample_key sample_key)
    ≡ ok hello
sm4_decrypt_cbc_pkcs7_example =
    sm4_decrypt_cbc_pkcs7-sm4_encrypt_cbc_pkcs7 sample_key sample_key hello (omega arith)
      (omega arith)

tau-eq-sbox_ct_example : tau 0x0123_4567 ≡ word_of_be (map sbox_ct (to_be_bytes 4 0x0123_4567))
tau-eq-sbox_ct_example = tau-eq-sbox_ct 0x0123_4567

sbox_ct-eq-table_example : sbox_ct 0xef ≡ get_or sbox_table 0xef 0
sbox_ct-eq-table_example = sbox_ct-eq-table 0xef (omega arith)
