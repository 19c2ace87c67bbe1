-- ===== src/Sha1/Tests.antt =====
-- Runs of src/sha1.c on the vectors of FIPS 180.
use ps5torrent.Base.{◌≡◌, refl, [], ◌∷◌, Bytes, codes, replicate, ◌++◌, arith}
use ps5torrent.Sha1.Transform.{sha1_transform}
use ps5torrent.Sha1.Context.{sha1_init, sha1_update, sha1_hash}
use ps5torrent.Sha1.Blocks.{Absorbed, initial}
use ps5torrent.Sha1.Streaming.{sha1_init-Absorbed, sha1_update-Absorbed}
use ps5torrent.Sha1.Padding.{IsDigest, pad}
use ps5torrent.Sha1.Final.{sha1_hash-pad}

abbrev stack : Bytes
stack = replicate 64 0xAA

abc_digest :
    sha1_hash stack (codes "abc")
    ≡ 0xA9 ∷ 0x99 ∷ 0x3E ∷ 0x36 ∷ 0x47 ∷ 0x06 ∷ 0x81 ∷ 0x6A ∷ 0xBA ∷ 0x3E ∷ 0x25 ∷ 0x71 ∷ 0x78
      ∷ 0x50 ∷ 0xC2 ∷ 0x6C ∷ 0x9C ∷ 0xD0 ∷ 0xD8 ∷ 0x9D ∷ []
unfolding sha1_hash sha1_transform
abc_digest = refl

sha1_hash-pad_example : IsDigest initial (pad (codes "abc")) (sha1_hash stack (codes "abc"))
sha1_hash-pad_example = sha1_hash-pad stack (codes "abc") refl (omega arith)

sha1_update-Absorbed_example :
    Absorbed (sha1_update (sha1_init stack) (codes "abc")) ([] ++ codes "abc")
sha1_update-Absorbed_example =
    sha1_update-Absorbed (sha1_init stack) [] (codes "abc") (sha1_init-Absorbed stack refl)
