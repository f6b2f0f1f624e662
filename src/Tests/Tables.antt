-- ===== src/Tests/Tables.antt =====
-- Runs of the session table and of a session (Session.cpp), and of the values in a request.
use files_event.Prelude.{
  ℕ, ◌≡◌, refl, arith, List, [], ◌∷◌, ◌++◌, true, false, some, none, length, pos, ◌+ℤ◌, ◌-ℤ◌, sub_ℕ,
  returns, fault, ◌⊎◌, codes,
}
use files_event.Memory.{zeroed}
use files_event.Proto.{strstr, get_value_by_name}
use files_event.Proto.Values.{get_value_by_name-found}
use files_event.SessionTable.{Table, empty, put, get_and_remove}
use files_event.SessionTable.Lookup.{remove_twice}
use files_event.Session.{Session, set_global, no_task, add_read_event, add_write_event}
use files_event.Session.Callbacks.{can_delete, hang_up}
use files_event.Session.Closing.{closes, closing, hang_up-closes, add_event_twice}

-- Socket 7 holds session 70.
abbrev one_session : Table
one_session = (put 7 70 empty).1

abbrev session : Session
session = record {
  self = 70;
  sid = 7;
  task = no_task;
  global = true;
  status = files_event.Session.Status.normal;
  running = false;
  writing = false;
  reading = false;
  head_now = true;
  total_len = 0;
  has_recv_len = 0;
  buff = zeroed;
  write_fd = pos 7;
  write_base = files_event.Session.Base.loop_base;
  time_base = files_event.Session.Base.null_base;
}

remove_twice_example :
    let t₁ = (put 8 80 one_session).1 in
    let (first, t₂) = get_and_remove 8 t₁ in
    let (second, t₃) = get_and_remove 8 t₂ in
    (first ≡ some 80) × (second ≡ none) × (t₃.count ≡ one_session.count +ℤ pos 1 -ℤ pos 1 -ℤ pos 1)
remove_twice_example = remove_twice 8 80 one_session

removed_self : (get_and_remove 7 one_session).0 ≡ some 70
unfolding get_and_remove put empty
removed_self = refl

hang_up-closes_example :
    ((can_delete session ≡ true)
      × (hang_up 7 session one_session
          ≡ returns (none, (get_and_remove 7 one_session).1, closing session))
      × (closes 7 (closing session) ≡ 2))
    ⊎ ((can_delete session ≡ false) × (hang_up 7 session one_session ≡ fault))
hang_up-closes_example =
    hang_up-closes session one_session refl (omega arith) (omega arith) refl removed_self

add_event_twice_example :
    (add_read_event (add_read_event session).0 ≡ ((add_read_event session).0, []))
    × (add_write_event (add_write_event session).0 ≡ ((add_write_event session).0, []))
add_event_twice_example = add_event_twice session

-- The request for the file `a.mp4`.
abbrev request : List ℕ
request = codes "<get path=\"a.mp4\"/>"

request_match :
    strstr (codes "get path") request
    ≡ returns (some (codes "get path" ++ (b'=' ∷ b'"' ∷ (codes "a.mp4" ++ (b'"' ∷ codes "/>")))))
unfolding strstr
request_match = refl

get_value_by_name-found_example :
    get_value_by_name 256 (codes "get path") request
    ≡ returns
        (record { ret = 1; value = codes "a.mp4"; value_len = sub_ℕ (length (codes "a.mp4")) 1 })
get_value_by_name-found_example =
    get_value_by_name-found 256 (codes "get path") (codes "a.mp4") (codes "/>") request
      request_match (ground arith) (omega arith)
