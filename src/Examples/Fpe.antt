-- ===== src/Examples/Fpe.antt =====
-- src/fpe: instances of the theorems.
use libsmx.Base.{◌≡◌, ◌-◌, inr, replicate, refl, arith}
use libsmx.Base.Words.{Bytes}
use libsmx.Sm4.Cipher.{Sm4Key}
use libsmx.Sm4.Cipher
use libsmx.Sm4.Cipher.RoundTrip.{IsBlock}
use libsmx.Fpe.Fnr.{get_bit, fnr_encrypt}
use libsmx.Fpe.Key.{FpeKey, fpe_encrypt, fpe_decrypt}
use libsmx.Fpe.Calls.{fpe_decrypt-fpe_encrypt}
use libsmx.Fpe.RoundTrip.{get_bit-fnr_encrypt_odd}

abbrev network_key : Sm4Key
network_key = Cipher.new (replicate 16 0x5a)

abbrev network_tweak : Bytes
network_tweak = replicate 15 7

abbrev plain_block : Bytes
plain_block = replicate 16 0xc3

plain_block-IsBlock : IsBlock plain_block
plain_block-IsBlock = (refl, omega arith)

abbrev sample_key : FpeKey
sample_key = record { key = network_key; num_bits = 36 }

fpe_decrypt-fpe_encrypt_example :
    fpe_decrypt sample_key network_tweak (fpe_encrypt sample_key network_tweak plain_block)
    ≡ plain_block
fpe_decrypt-fpe_encrypt_example =
    fpe_decrypt-fpe_encrypt sample_key network_tweak plain_block (inr (omega arith)) (omega arith)
      plain_block-IsBlock

get_bit-fnr_encrypt_odd_example :
    get_bit (fnr_encrypt network_key network_tweak plain_block 17) (17 - 1) ≡ 0
get_bit-fnr_encrypt_odd_example =
    get_bit-fnr_encrypt_odd network_key network_tweak plain_block 17 (omega arith) (omega arith)
      (omega arith) plain_block-IsBlock
