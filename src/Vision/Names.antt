-- ===== src/Vision/Names.antt =====
-- The endpoints and the path of a vision server, of msgq/visionipc/visionipc_server.cc.
use msgq.Fake.Digits.{decimal, decimal-injective}
use msgq.Base.{◌^◌, ◌<◌, ◌≡◌, Option, none, some, List, [], ◌∷◌, ◌++◌, codes, ℕ}

-- `get_endpoint_name`
unfoldable pub get_endpoint_name : List ℕ → ℕ → List ℕ
get_endpoint_name name kind = codes "visionipc_" ++ (name ++ b'_' ∷ decimal kind)

-- `get_ipc_path`, given the variable OPENPILOT_PREFIX
unfoldable pub get_ipc_path : Option (List ℕ) → List ℕ → List ℕ
get_ipc_path none name = codes "/tmp/visionipc_" ++ name
get_ipc_path (some prefix) name = codes "/tmp/" ++ (prefix ++ b'_' ∷ (codes "visionipc_" ++ name))

-- Streams of one server have different endpoints.
get_endpoint_name-injective :
    (name : List ℕ) (k l : ℕ)
    → k < 2 ^ 64
    → l < 2 ^ 64
    → get_endpoint_name name k ≡ get_endpoint_name name l
    → k ≡ l
unfolding get_endpoint_name
get_endpoint_name-injective name k l hk hl e =
    decimal-injective k l hk hl
      (cc (append_cancel name (b'_' ∷ decimal k) (b'_' ∷ decimal l) (cc e)))
  where
    append_cancel : (xs ys zs : List ℕ) → xs ++ ys ≡ xs ++ zs → ys ≡ zs
    append_cancel [] ys zs same = same
    append_cancel (x ∷ xs) ys zs same = append_cancel xs ys zs (cc same)
