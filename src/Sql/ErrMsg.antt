-- ===== src/Sql/ErrMsg.antt =====
-- MysqlQuery.hpp and MysqlQuery.cpp: ErrMsg, the text of the last error.
use pets_server_linux.Common.{
  ℕ, ◌+◌, ◌≤◌, ◌<◌, ◌≡◌, ◌⊎◌, inl, inr, refl, ◌∙◌, Bool-cases, List, ◌∷◌, ◌++◌, Text, codes, length,
  length-append, replicate, drop, ltb, if◌then◌else◌, Outcome, done, fail, ◌>>=◌, length-drop,
  out_of_bounds, ltb→lt, arith,
}

-- ERROR_MESSAGE_BUFFER_MAX_LENGTH
abbrev pub error_message_buffer_max_length : ℕ
error_message_buffer_max_length = 1024

-- ErrMsg
pub record ErrMsg : Type 0 where
  pub err_info : List ℕ

-- ErrMsg::ErrMsg
abbrev pub new_err_msg : ErrMsg
new_err_msg = record { err_info = replicate error_message_buffer_max_length 0 }

-- What vsprintf does to the buffer with the text that it formats: the text and a 0 stand over what
-- was there.
unfoldable write_text : Text → List ℕ → Outcome (List ℕ)
write_text text buffer =
    if ltb (length text) (length buffer)
    then done (text ++ 0 ∷ drop (length text + 1) buffer)
    else fail out_of_bounds

-- ErrMsg::LogMsg, on the text that its arguments give.
unfoldable pub log_msg : Text → ErrMsg → Outcome ErrMsg
unfolding write_text
log_msg info m = do buffer ← write_text info m.err_info; done (record m { err_info = buffer })

-- The text of ExecuteSQL's error, from the library's reason and the statement.
abbrev pub real_query_error : Text → Text → Text
real_query_error reason sql =
    codes "Execute mysql_real_query is Error [reason:"
    ++ (reason ++ (codes " --- sql:" ++ (sql ++ codes "]")))

-- The buffer keeps its length, so that every error has the same room.
log_msg_room :
    (text : Text) (m : ErrMsg)
    → ((length text < length m.err_info)
        × (m' : ErrMsg) × (log_msg text m ≡ done m')
        × (length m'.err_info ≡ length m.err_info))
      ⊎ ((length m.err_info ≤ length text) × (log_msg text m ≡ fail out_of_bounds))
unfolding log_msg write_text
log_msg_room text m = elim (Bool-cases (ltb (length text) (length m.err_info))) [
  | inl fits ↦ inl (
    ltb→lt _ _ fits,
    record { err_info = text ++ 0 ∷ drop (length text + 1) m.err_info },
    rw fits refl,
    omega (
      arith,
      length-append text (0 ∷ drop (length text + 1) m.err_info),
      length-drop (length text + 1) m.err_info,
      ltb→lt _ _ fits,
    ),
  )
  | inr full ↦ inr (ground (arith, full), rw full refl)
]

length-real_query_error :
    (reason sql : Text) → length (real_query_error reason sql) ≡ length reason + length sql + 52
length-real_query_error reason sql = omega (
  arith,
  length-append reason (codes " --- sql:" ++ (sql ++ codes "]")),
  length-append sql (codes "]"),
)

-- A statement that the database refuses: its error is written if the reason and the statement have
-- less than 972 bytes together, and the buffer keeps its 1024 bytes; if they have more, LogMsg writes
-- behind the buffer.
pub log_msg-real_query_error :
    (reason sql : Text) (m : ErrMsg)
    → length m.err_info ≡ error_message_buffer_max_length
    → ((length reason + length sql < 972)
        × (m' : ErrMsg) × (log_msg (real_query_error reason sql) m ≡ done m')
        × (length m'.err_info ≡ error_message_buffer_max_length))
      ⊎ ((972 ≤ length reason + length sql)
          × (log_msg (real_query_error reason sql) m ≡ fail out_of_bounds))
log_msg-real_query_error reason sql m room = elim (log_msg_room (real_query_error reason sql) m) [
  | inl (fits, m', e, kept) ↦
      inl (omega (arith, fits, room, length-real_query_error reason sql), m', e, kept ∙ room)
  | inr (full, e) ↦ inr (omega (arith, full, room, length-real_query_error reason sql), e)
]
