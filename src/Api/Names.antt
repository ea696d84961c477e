-- ===== src/Api/Names.antt =====
-- The names that `MySQLCluster` gives to its resources (api/v1beta2/mysqlcluster_types.go).
use moco.Prelude.{ℕ, zero, suc, ◌/◌, ◌%◌, String, ◌<>◌, ltb, if◌then◌else◌}

abbrev digit : ℕ → String
digit zero = "0"
digit (suc zero) = "1"
digit (suc (suc zero)) = "2"
digit (suc (suc (suc zero))) = "3"
digit (suc (suc (suc (suc zero)))) = "4"
digit (suc (suc (suc (suc (suc zero))))) = "5"
digit (suc (suc (suc (suc (suc (suc zero)))))) = "6"
digit (suc (suc (suc (suc (suc (suc (suc zero))))))) = "7"
digit (suc (suc (suc (suc (suc (suc (suc (suc zero)))))))) = "8"
digit (suc (suc (suc (suc (suc (suc (suc (suc (suc _))))))))) = "9"

-- The verb `%d` of fmt. A number has at most as many digits as its value plus one.
decimal_digits : ℕ → ℕ → String
decimal_digits zero n = ""
decimal_digits (suc fuel) n =
    let front = decimal_digits fuel (n / 10) in
    if ltb n 10 then digit n else front <> digit (n % 10)

unfoldable pub decimal : ℕ → String
unfolding decimal_digits
decimal n = decimal_digits (suc n) n

module _ (namespace name : String) where
  unfoldable pub prefixed_name : String
  prefixed_name = "moco-" <> name

  unfoldable pub pod_name : ℕ → String
  unfolding prefixed_name decimal
  pod_name index = prefixed_name <> "-" <> decimal index

  unfoldable pub user_secret_name : String
  user_secret_name = "moco-" <> name

  unfoldable pub headless_service_name : String
  unfolding prefixed_name
  headless_service_name = prefixed_name

  unfoldable pub pod_hostname : ℕ → String
  unfolding pod_name headless_service_name
  pod_hostname index = pod_name index <> "." <> headless_service_name <> "." <> namespace <> ".svc"
