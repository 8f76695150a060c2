-- ===== src/Tests/Starts.antt =====
-- Concrete runs of the start, of the answer to a login, and of the small helpers.
use pets_server_linux.Common.{◌≡◌, refl, false, true, List, [], ◌∷◌, ◌++◌, done, codes}
use pets_server_linux.Common.Int.{negsuc}
use pets_server_linux.Common.Decimal.{to_string}
use pets_server_linux.Sql.Connect.{Setup, set_info, init}
use pets_server_linux.Server.Start.{Boot, Host, threads_started, init_server, main}
use pets_server_linux.Server.Routing.{fresh}
use pets_server_linux.Clock.{Tm, get_time_stamp_to_nomal_time}
use pets_server_linux.RandomText.{Draws, srand_str}
use pets_server_linux.Tests.Small.{env, client}

abbrev setup : Setup env.api
setup = record {
  mysql_init = true;
  set_options = λ db. db;
  real_connect = λ host user password name port db. (true, db);
  stmt_init = true;
}

abbrev host : Host env
host = record { setup = setup; has_loop = true; test_address = 64; number_address = 80 }

abbrev boot : Boot env
boot = record { calls = []; dispatcher = fresh; info = set_info [] [] [] [] 0; client = client }

no_loop :
    (b : Boot env) × (main env (record host { has_loop = false }) boot ≡ done (negsuc 0, b))
    × (b.calls
        ≡ (init_server env host boot).1.calls
          ++ threads_started env (record host { has_loop = false }))
unfolding main init
no_loop = (_, refl, refl)

abbrev noon : Tm
noon = record { tm_year = 123; tm_mon = 2; tm_mday = 12; tm_hour = 12; tm_min = 0; tm_sec = 5 }

noon_text : get_time_stamp_to_nomal_time noon ≡ codes "2023/3/12  12:0:5"
unfolding get_time_stamp_to_nomal_time to_string
noon_text = refl

abbrev draws : List Draws
draws = record { type_draw = 3; ch_draw = 27 } ∷ record { type_draw = 5; ch_draw = 13 } ∷ []

drawn_text : srand_str draws [] 2 ≡ done (codes "B3")
unfolding srand_str
drawn_text = refl
