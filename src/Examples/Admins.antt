-- ===== src/Examples/Admins.antt =====
-- An admin service whose secret is "s3cret".
use chainmesh.Base.{◌≡◌, ◌↔◌, refl, false, none, [], ◌∷◌, arith, String}
use chainmesh.Base.Order.{insertion_order}
use chainmesh.ApiKey.{Random, generate_api_key}
use chainmesh.ApiKey.Shape.{generate_api_key-Tells}
use chainmesh.Store.Keys.{api_key_prefix}
use chainmesh.Redis.{delivered, lost}
use chainmesh.Store.Statements.{complete, first}
use chainmesh.Admin.{AdminRequest, delete_tenant_by_id, World}
use chainmesh.Examples.Accounts.{bcrypt, making}
use chainmesh.Examples.Summaries.{queries}
use chainmesh.Examples.Tables.{deletion}

abbrev pub random : Random
random = record {
  bytes = 0 ∷ 1 ∷ 2 ∷ 3 ∷ 4 ∷ 5 ∷ 6 ∷ 7 ∷ 8 ∷ 9 ∷ 10 ∷ 11 ∷ 12 ∷ 13 ∷ 14 ∷ 255 ∷ [];
  length_bytes = refl;
  small = (
    omega arith,
    (
      omega arith,
      (
        omega arith,
        (
          omega arith,
          (
            omega arith,
            (
              omega arith,
              (
                omega arith,
                (
                  omega arith,
                  (
                    omega arith,
                    (
                      omega arith,
                      (
                        omega arith,
                        (
                          omega arith,
                          (omega arith, (omega arith, (omega arith, (omega arith, tt)))),
                        ),
                      ),
                    ),
                  ),
                ),
              ),
            ),
          ),
        ),
      ),
    ),
  );
}

abbrev pub world : World
world = record {
  order = insertion_order;
  bcrypt = bcrypt;
  resolver = record {
    skip = false;
    parse_url = λ u. none;
    parse_ip = λ h. none;
    lookup_ip = λ h. none;
  };
  now = 8;
  random = random;
  making = making;
  reading = complete;
  trip = delivered;
  audit_trip = lost;
  network_id = "eth";
  deletion = deletion;
  view_queries = queries;
  raw_queries = queries;
  view = none;
}

abbrev guess : AdminRequest
guess = record { secret = "secret"; route = delete_tenant_by_id "t1" }

abbrev secret : String
secret = "s3cret"

abbrev other_random : Random
other_random = record random {
  bytes = 1 ∷ 0 ∷ 2 ∷ 3 ∷ 4 ∷ 5 ∷ 6 ∷ 7 ∷ 8 ∷ 9 ∷ 10 ∷ 11 ∷ 12 ∷ 13 ∷ 14 ∷ 255 ∷ [];
  small = (
    omega arith,
    (
      omega arith,
      (
        omega arith,
        (
          omega arith,
          (
            omega arith,
            (
              omega arith,
              (
                omega arith,
                (
                  omega arith,
                  (
                    omega arith,
                    (
                      omega arith,
                      (
                        omega arith,
                        (
                          omega arith,
                          (omega arith, (omega arith, (omega arith, (omega arith, tt)))),
                        ),
                      ),
                    ),
                  ),
                ),
              ),
            ),
          ),
        ),
      ),
    ),
  );
}

generate_api_key-Tells_example :
    ((generate_api_key random ≡ generate_api_key other_random)
      ↔ (random.bytes ≡ other_random.bytes))
    × ((api_key_prefix (generate_api_key random) ≡ api_key_prefix (generate_api_key other_random))
        ↔ (first 2 random.bytes ≡ first 2 other_random.bytes))
generate_api_key-Tells_example = generate_api_key-Tells random other_random
