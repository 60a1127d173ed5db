-- ===== src/Wlproxy/Session/Tests.antt =====
-- A connection that has its display, and what a client does with it.
use kryptik_os.Common.{
  ◌≤◌, ◌≡◌, refl, arith, true, List, [], ◌∷◌, Option, none, some, ok, err, ◌↔◌, ascii,
}
use kryptik_os.Wlproxy.Protocol.{Message}
use kryptik_os.Wlproxy.Protocol.Encoding.{creates_all}
use kryptik_os.Wlproxy.Failure.{client_to_server, server_to_client, unknown_opcode}
use kryptik_os.Wlproxy.Objects.{new_objects, get, insert, insert_slot}
use kryptik_os.Wlproxy.Tables.{find, signature}
use kryptik_os.Wlproxy.Tables.Core.{wl_display, wl_callback}
use kryptik_os.Wlproxy.Tables.Known.{count_fds, all_found, signature-counts}
use kryptik_os.Wlproxy.Session.{
  Session, register, register_in_range, within_budgets, lookup, delete_object,
}
use kryptik_os.Wlproxy.Session.History.{
  Change, opened, registered, deleted, new_session, run, latest, HasMessage, run-lookup,
}
use kryptik_os.Wlproxy.Session.History.Counts.{wl_display-IsKnown, opened-IsCounted, run-deleted}
use kryptik_os.Wlproxy.Session.Budgets.{IsCounted, register-IsCounted, delete_object-IsCounted}

abbrev message_of : Option Message → Message
message_of (some m) = m
message_of none = record { name = []; args = []; fds = 0; since = 0 }

-- `wl_display.sync` is request 0, and makes a callback.
abbrev sync : Message
sync = message_of (signature client_to_server wl_display 0)

signature-counts_example :
    (creates_all sync.args ≤ 1) × (sync.fds ≡ count_fds sync.args) × (all_found sync.args ≡ true)
signature-counts_example =
    signature-counts wl_display client_to_server 0 sync wl_display-IsKnown refl

callback-found : find (ascii "wl_callback") ≡ some wl_callback
unfolding find
callback-found = refl

abbrev with_callback : Session
with_callback = record {
  objects = record {
    client = none ∷ some (wl_display, 1) ∷ some (wl_callback, 1) ∷ [];
    server = [];
    live = 2;
  };
  toplevels = 0;
  popups = 0;
}

callback-registered : register opened 2 (ascii "wl_callback") 1 client_to_server ≡ ok with_callback
unfolding register register_in_range within_budgets find insert insert_slot
callback-registered = refl

register-IsCounted_example : IsCounted with_callback
register-IsCounted_example =
    register-IsCounted opened with_callback 2 (ascii "wl_callback") 1 client_to_server
      opened-IsCounted callback-registered

delete_object-IsCounted_example : (s' : Session) × (delete_object opened 1 ≡ some s') × IsCounted s'
delete_object-IsCounted_example = delete_object-IsCounted opened 1 opened-IsCounted

-- `wl_callback.done` is event 0.
abbrev done : Message
done = message_of (signature server_to_client wl_callback 0)

abbrev callback_made : List Change
callback_made = registered 2 (ascii "wl_callback") 1 client_to_server ∷ []

callback_made-run : run callback_made ≡ some with_callback
unfolding run new_session new_objects register register_in_range within_budgets find insert
    insert_slot
callback_made-run = refl

run-lookup_example : (lookup with_callback 2 server_to_client 0 ≡ ok (wl_callback, done, 1)) ↔ (
    (latest callback_made 2 ≡ some (ascii "wl_callback", 1))
    × (find (ascii "wl_callback") ≡ some wl_callback)
    × HasMessage server_to_client wl_callback 0 done
    × (done.since ≤ 1))
run-lookup_example =
    run-lookup callback_made with_callback 2 server_to_client 0 wl_callback done 1 callback_made-run

done-found : lookup with_callback 2 server_to_client 0 ≡ ok (wl_callback, done, 1)
done-found = run-lookup_example.1 (refl, callback-found, refl, omega arith)

-- The callback takes no request.
callback-requests :
    lookup with_callback 2 client_to_server 0 ≡ err (unknown_opcode wl_callback.name 0)
unfolding lookup get
callback-requests = refl

run-deleted_example : (s' : Session) × (run (deleted 2 ∷ callback_made) ≡ some s') × IsCounted s'
run-deleted_example = run-deleted callback_made 2 with_callback callback_made-run
