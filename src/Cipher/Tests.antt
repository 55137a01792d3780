-- ===== src/Cipher/Tests.antt =====
-- The cipher at concrete strings and keys.
use systems_projects.Base.{◌≡◌, refl, true, codes, negsuc, arith}
use systems_projects.Cipher.{is_alphanumeric, encode, decode}
use systems_projects.Cipher.RoundTrip.{all_alphanumeric, decode-encode}

clean : all_alphanumeric (codes "Zulu9") ≡ true
unfolding is_alphanumeric
clean = refl

-- A key of -29.
decode-encode_example :
    (decode (encode (codes "Zulu9") (negsuc 28)).0 (negsuc 28)).0 ≡ codes "Zulu9"
decode-encode_example = decode-encode (codes "Zulu9") (negsuc 28) (omega arith) clean
