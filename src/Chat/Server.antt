-- ===== src/Chat/Server.antt =====
-- The chat server (examples/chatserver/receiver.cpp, pool.cpp and client.cpp): its clients, and what
-- it does with what they say. The sockets are an interface.
pub mod Served
pub mod Stalled
pub mod Members
use rioring.Prelude.{
  ℕ, suc, Bool, true, false, List, [], ◌∷◌, ◌++◌, map, drop, ◌==◌, if◌then◌else◌, Outcome, done,
  ◌>>=◌,
}
use rioring.SocketObject.{
  SocketObject, CloseType, graceful, force, set_receive_event, set_close_event,
}
use rioring.Sockets.{Sockets}
use rioring.Chat.Scheme.{req_chat, int_at, is_positive, c_string, sent_bytes}
use rioring.Chat.Picking.{Receiver}
use rioring.Chat.Client.{client_name, compose}

-- `client`: whose socket, and its name.
pub record Client : Type 0 where
  pub socket : ℕ
  pub name : List ℕ

-- `name_id` and the `pool`, whose map is a list. (The order of an `unordered_map` is not defined;
-- here a new entry goes to the front.)
pub record Hall : Type 0 where
  pub clients : List (ℕ × Client)
  pub name_id : ℕ

abbrev pub has : ℕ → List (ℕ × Client) → Bool
has obj_id [] = false
has obj_id ((k, c) ∷ cs) = if k == obj_id then true else has obj_id cs

abbrev pub erase : ℕ → List (ℕ × Client) → List (ℕ × Client)
erase obj_id [] = []
erase obj_id ((k, c) ∷ cs) = if k == obj_id then erase obj_id cs else (k, c) ∷ erase obj_id cs

-- `pool::add`: `insert` keeps what is there under the key.
pub add : ℕ → Client → Hall → Hall
add obj_id c h =
    if has obj_id h.clients then h else (record h { clients = (obj_id, c) ∷ h.clients })

pub remove : ℕ → Hall → Hall
remove obj_id h = record h { clients = erase obj_id h.clients }

-- `client::client`.
new_client : ℕ → Hall → Client × Hall
new_client socket h =
    (record { socket = socket; name = client_name h.name_id }, record h { name_id = suc h.name_id })

-- `event_receiver::on_accept`: the socket with its three callbacks.
pub on_accept : SocketObject → Hall → SocketObject × Hall
unfolding new_client
on_accept o h =
    let (c, h') = new_client o.base.obj_id h in
    let o' = record o { base = record o.base { error_event = true } } in
    (set_close_event (set_receive_event o' true) true, add o.base.obj_id c h')

-- `event_receiver::on_close`.
pub on_close : ℕ → Hall → Hall
on_close obj_id h = remove obj_id h

module _ {ℓ} {W : Type ℓ} (ops : Sockets W) where
  -- `pool::leave_all`.
  unfoldable pub leave_all : List (ℕ × Client) → W → Outcome W
  leave_all [] w = done w
  leave_all ((k, c) ∷ cs) w = ops.close graceful c.socket w >>= λ w'. leave_all cs w'

  -- `pool::chat_all`.
  pub chat_all : List (ℕ × Client) → List ℕ → W → Outcome W
  chat_all [] rc w = done w
  chat_all ((k, c) ∷ cs) rc w =
      sent_bytes rc >>= λ bytes. ops.send c.socket bytes w >>= λ w'. chat_all cs rc w'

  -- `client::chat`.
  pub chat : Hall → Client → List ℕ → W → Outcome W
  chat h cl msg w = compose cl.name msg >>= λ rc. chat_all h.clients rc w

  -- What the loop of `event_receiver::on_receive` does for the client `cl` of its socket.
  pub server_receiver : Hall → Client → Receiver W
  server_receiver h cl = record {
    expected = req_chat;
    handle = λ request w.
        if is_positive (int_at request 3)
        then (c_string (drop 7 request) >>= λ msg. chat h cl msg w)
        else done w;
    other = λ w. ops.close force cl.socket w;
  }
