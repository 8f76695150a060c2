-- ===== src/Tests/Database.antt =====
-- Concrete runs of the connect, the queries and the binds.
use pets_server_linux.Common.{
  ◌==◌, ◌%◌, ◌^◌, ◌<◌, ◌≤◌, ◌≡◌, ◌⊎◌, refl, true, [], done, fail, out_of_bounds, codes, text_eq,
  Text, length, replicate, ◌+◌,
}
use pets_server_linux.Common.Maps
use pets_server_linux.Sql.{long, err_type}
use pets_server_linux.Sql.Binds.{
  Bound, bind_param, new_query_bind, QueryBind, bind_param-new_query_bind,
}
use pets_server_linux.Sql.ErrMsg.{
  ErrMsg, new_err_msg, error_message_buffer_max_length, real_query_error, log_msg,
  log_msg-real_query_error,
}
use pets_server_linux.Sql.Procedure.Types.{get_my_sql_type}
use pets_server_linux.Sql.Connect.{Setup, DbInfo}
use pets_server_linux.Tests.Small.{api}

bind_param-new_query_bind_example :
    ((3 < 256 % 2 ^ 8)
      × (q : QueryBind) × (bind_param long 100 4 3 (new_query_bind 256) ≡ done q)
      × Bound long 100 4 3 (new_query_bind 256) q)
    ⊎ ((256 % 2 ^ 8 ≤ 3) × (bind_param long 100 4 3 (new_query_bind 256) ≡ fail out_of_bounds))
bind_param-new_query_bind_example = bind_param-new_query_bind 256 long 100 4 3

float_type : get_my_sql_type (codes "float") ≡ err_type
unfolding get_my_sql_type text_eq
float_type = refl

-- The database is reached at its default port only.
abbrev setup : Setup api
setup = record {
  mysql_init = true;
  set_options = λ db. db;
  real_connect = λ ip user password name port db. (port == 3306, db);
  stmt_init = true;
}

abbrev blank_info : DbInfo
blank_info = record { user = []; password = []; dbname = []; host = []; port = 0 }

-- A reason of two bytes and a statement of a thousand.
abbrev refused : Text
refused = replicate 1000 b'x'

log_msg-real_query_error_example :
    ((length (codes "no") + length refused < 972)
      × (m' : ErrMsg) × (log_msg (real_query_error (codes "no") refused) new_err_msg ≡ done m')
      × (length m'.err_info ≡ error_message_buffer_max_length))
    ⊎ ((972 ≤ length (codes "no") + length refused)
        × (log_msg (real_query_error (codes "no") refused) new_err_msg ≡ fail out_of_bounds))
log_msg-real_query_error_example = log_msg-real_query_error (codes "no") refused new_err_msg refl
