-- ===== src/Hash/Examples.antt =====
-- Hashes of short texts, by src/crc32.cpp, src/md5.cpp and src/sha1.cpp.
use ashe.Base.{ℕ, List, ◌≡◌, ◌≢◌, refl, ◌∙◌, [], some, replicate, codes, arith}
use ashe.Hash.Crc32.{init, finish, digest, get_data_crc32}
use ashe.Hash.Md5.{md5_init, md5_update, sig_to_string, get_data_md5}
use ashe.Hash.Md5.Padding.{digest_of}
use ashe.Hash.Blocks.{absorb}
use ashe.Hash.Sha1.{
  Sha1, initial, reset, transform, update, digest_bytes, report_hash, get_data_sha1,
}
use ashe.Hash.Sha1.Padded.{padded_text, get_data_sha1-padded}
use ashe.Hash.Sha1.Stream.{IsAt, update-IsAt}
use ashe.Hash.Md5.Stream.{feeds, md5_update-feeds}
use ashe.Hash.Md5.Whole.{padded, get_data_md5-padded}
use ashe.Hash.Crc32.Serial.{serial, get_data_crc32-serial}
use ashe.Hash.Crc32.Detects.{get_data_crc32-differs}

-- The check value of the CRC-32.
check_value : get_data_crc32 (codes "123456789") ≡ some (codes "cbf43926")
unfolding get_data_crc32
check_value = refl

get_data_crc32-serial_example :
    get_data_crc32 (codes "ashe") ≡ some (digest (finish (serial init (codes "ashe"))))
get_data_crc32-serial_example =
    get_data_crc32-serial (codes "ashe")
      (omega arith, (omega arith, (omega arith, (omega arith, tt))))

get_data_crc32-differs_example : get_data_crc32 (codes "ash") ≢ get_data_crc32 (codes "asp")
get_data_crc32-differs_example =
    get_data_crc32-differs (codes "as") [] 104 112 (omega arith, (omega arith, (omega arith, tt)))
      (omega arith, (omega arith, (omega arith, tt))) (omega arith)

-- Digests of RFC 1321.
digest_of_abc :
    get_data_md5 (replicate 64 0) (codes "abc") ≡ some (codes "900150983cd24fb0d6963f7d28e17f72")
unfolding get_data_md5
digest_of_abc = refl

digest_of_digits :
    get_data_md5
      (replicate 64 9)
      (codes "12345678901234567890123456789012345678901234567890123456789012345678901234567890")
    ≡ some (codes "57edf4a22be3c955ac49da2e2107b67a")
unfolding get_data_md5
digest_of_digits = refl

abbrev no_garbage : List ℕ
no_garbage = replicate 64 0

md5_update-feeds_example :
    md5_update (md5_init no_garbage) (codes "ashe")
    ≡ some (feeds (md5_init no_garbage) (codes "ashe"))
unfolding md5_init
md5_update-feeds_example =
    md5_update-feeds (md5_init no_garbage) (codes "ashe") (omega arith) (omega arith) (omega arith)

get_data_md5-padded_example :
    get_data_md5 no_garbage (codes "ashe")
    ≡ some (sig_to_string (digest_of (feeds (md5_init no_garbage) (padded (codes "ashe"))).buf) 33)
get_data_md5-padded_example = get_data_md5-padded no_garbage (codes "ashe") refl

-- FIPS 180.
sha1_of_abc :
    get_data_sha1 no_garbage (codes "abc") ≡ some (codes "a9993e364706816aba3e25717850c26c9cd0d89d")
unfolding transform report_hash initial
sha1_of_abc = get_data_sha1-padded no_garbage (codes "abc") refl ∙ refl

sha1_of_two_blocks :
    get_data_sha1 no_garbage (codes "abcdbcdecdefdefgefghfghighijhijkijkljklmklmnlmnomnopnopq")
    ≡ some (codes "84983e441c3bd26ebaae4aa1f95129e5e54670f1")
unfolding transform report_hash initial
sha1_of_two_blocks =
    get_data_sha1-padded no_garbage
      (codes "abcdbcdecdefdefgefghfghighijhijkijkljklmklmnlmnomnopnopq") refl
    ∙ refl

get_data_sha1-padded_example :
    get_data_sha1 no_garbage (codes "ashe")
    ≡ some (report_hash (digest_bytes (absorb transform initial [] (padded_text (codes "ashe"))).0))
get_data_sha1-padded_example = get_data_sha1-padded no_garbage (codes "ashe") refl

update-IsAt_example :
    (after : Sha1) × (update (reset no_garbage) (codes "ashe") ≡ some after)
    × IsAt after (absorb transform initial [] (codes "ashe")) 4
unfolding reset
update-IsAt_example =
    update-IsAt (reset no_garbage) initial [] 0 (codes "ashe") (refl, refl, refl, refl, refl)
      (omega arith)
