-- ===== src/SubClient.antt =====
-- The client that rpcserver/help.h keeps, a script in Python behind `#if 0`: it publishes requests,
-- subscribes to the id of each, and takes its reply from a second socket.
pub mod Served
use zeromq_rpc_test.Prelude.{
  ℕ, Bool, true, false, List, [], ◌∷◌, ◌++◌, Option, none, some, Bytes, codes, if◌then◌else◌,
}
use zeromq_rpc_test.External.Doc.{Docs, double, str, arr, dict, item, end}

-- `req` is the publishing socket, `rep` the subscribing one.
pub data Sock : Type 0 where
  req rep : Sock

pub data SockCall : Type 0 where
  connects : Sock → Bytes → SockCall
  sets_linger sets_rcvtimeo : ℕ → SockCall
  subscribes unsubscribes : Bytes → SockCall
  sends : List Bytes → SockCall
  receives : SockCall

unfoldable pub get_reply_socket : List SockCall
get_reply_socket =
    sets_linger 0
    ∷ sets_rcvtimeo 2000
    ∷ subscribes (codes "REQ10000")
    ∷ subscribes (codes "handshake")
    ∷ connects rep (codes "tcp://127.0.0.1:5558")
    ∷ []

abbrev pub request_id : Bytes
request_id = codes "REQ10003"

-- [{"request_id": "REQ10003"}, "add", [x, y]], where the script has 100.1 and 200.2.
unfoldable pub request : {F : Type 0} → ℕ → ℕ → Docs F
request x y =
    item
      (arr (
        item (dict (item (str (codes "request_id")) (item (str request_id) end)))
          (item (str (codes "add")) (item (arr (item (double x) (item (double y) end))) end))))
      end

-- Whether what is received is two parts that can be printed; `unpacks` is `msgpack.unpackb`.
abbrev pub is_printed : (Bytes → Bool) → List Bytes → Bool
is_printed unpacks (id ∷ body ∷ more) = unpacks body
is_printed unpacks _ = false

-- The rounds of the loop. An answer is a message, or `none` where the time is up. The second part
-- of the result tells whether the script still runs, or was ended by an exception.
unfoldable pub loop : (Bytes → Bool) → Bytes → List (Option (List Bytes)) → List SockCall × Bool
loop unpacks packed [] = ([], true)
loop unpacks packed (answer ∷ answers) =
    let (calls, running) = loop unpacks packed answers in
    let asked = sends (codes "1/0" ∷ packed ∷ []) ∷ subscribes request_id ∷ receives ∷ [] in
    elim answer [
      | none ↦ (asked ++ calls, running)
      | some msg ↦
          if is_printed unpacks msg
          then (asked ++ (unsubscribes request_id ∷ calls), running)
          else (asked, false)
    ]

-- The script.
unfoldable pub script : (Bytes → Bool) → Bytes → List (Option (List Bytes)) → List SockCall × Bool
script unpacks packed answers =
    let (calls, running) = loop unpacks packed answers in
    (connects req (codes "tcp://127.0.0.1:5555") ∷ (get_reply_socket ++ calls), running)
