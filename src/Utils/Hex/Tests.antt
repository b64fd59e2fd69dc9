-- ===== src/Utils/Hex/Tests.antt =====
-- Hexadecimal texts of src/utils/Crypto.hpp and src/worker_main.cpp on concrete bytes.
use tarassov_me.Prelude.{◌≡◌, [], ◌∷◌, some, arith}
use tarassov_me.Utils.Hex.{bytes_to_hex, hex_to_bytes}
use tarassov_me.Utils.Hex.Roundtrip.{hex_to_bytes-bytes_to_hex}

read_back : hex_to_bytes (bytes_to_hex (171 ∷ 9 ∷ [])) 2 ≡ some (171 ∷ 9 ∷ [])
read_back = hex_to_bytes-bytes_to_hex (171 ∷ 9 ∷ []) (omega arith, (omega arith, tt))
