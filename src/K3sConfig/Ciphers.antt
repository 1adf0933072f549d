-- ===== src/K3sConfig/Ciphers.antt =====
-- pkg/k3s/config.go, getTLSCipherSuiteArg: the argument that lists the allowed cipher suites.
use Prim.Native.Char.{code}
use Prim.Native.String.{[], ◌∷◌, ◌++◌}
use cluster_api_k3s.Prelude.{String, Bool, true, false, List, eqb, if◌then◌else◌, ◌&&◌, ◌≡◌, refl}

abbrev pub concat : String → String → String
concat a b = a ++ b

abbrev pub ciphers : List String
ciphers = List.◌∷◌ "TLS_ECDHE_ECDSA_WITH_AES_256_GCM_SHA384" (
    List.◌∷◌ "TLS_ECDHE_RSA_WITH_AES_256_GCM_SHA384" (
      List.◌∷◌ "TLS_ECDHE_ECDSA_WITH_AES_128_GCM_SHA256" (
        List.◌∷◌ "TLS_ECDHE_RSA_WITH_AES_128_GCM_SHA256" (
          List.◌∷◌ "TLS_ECDHE_ECDSA_WITH_CHACHA20_POLY1305" (
            List.◌∷◌ "TLS_ECDHE_RSA_WITH_CHACHA20_POLY1305" (
              List.◌∷◌ "TLS_RSA_WITH_AES_128_GCM_SHA256"
                (List.◌∷◌ "TLS_RSA_WITH_AES_256_GCM_SHA384" List.[])))))))

-- `for _, cc := range ciphers { ciphersList += cc + "," }`
with_commas : List String → String → String
with_commas List.[] out = out
with_commas (List.◌∷◌ c cs) out = with_commas cs (concat out (concat c ","))

is_empty : String → Bool
is_empty [] = true
is_empty (c ∷ s) = false

-- `strings.TrimRight(s, ",")`
trim_commas : String → String
unfolding is_empty
trim_commas [] = []
trim_commas (c ∷ s) =
    let trimmed = trim_commas s in if is_empty trimmed && eqb (code c) b',' then [] else c ∷ trimmed

unfoldable pub get_tls_cipher_suite_arg : String
unfolding with_commas trim_commas
get_tls_cipher_suite_arg = concat "tls-cipher-suites=" (trim_commas (with_commas ciphers ""))

-- A run: the list has no comma at its end.
get_tls_cipher_suite_arg-short :
    trim_commas (with_commas (List.◌∷◌ "a" (List.◌∷◌ "b" List.[])) "") ≡ "a,b"
unfolding with_commas trim_commas is_empty
get_tls_cipher_suite_arg-short = refl
