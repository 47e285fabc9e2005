-- ===== src/Libevent/Sockets/Enters.antt =====
-- What is in the table after a socket has been made.
use kknf.Base.{◌≡◌, List, [], ◌∷◌, ◌++◌, Option, none, some, if◌then◌else◌}
use kknf.Base.Map.{Order, Map, same, find}
use kknf.Base.Map.Laws.{find-assign}
use kknf.Libevent.Sockets.{PoolType, PoolSocket, key_by_type, add_to, add_socket}

module _ {A E : Type 0} ⦃o : Order E⦄ (key : A → PoolType → E) (blank : E) where
  -- The sockets of a key, none where the table does not have it.
  abbrev pub listed : Option (List (PoolSocket A)) → List (PoolSocket A)
  listed none = []
  listed (some sks) = sks

  -- The body of AddSocket enters the socket at the end of the list that it is given.
  add_to-listed :
      (k : E) (sk : PoolSocket A) (table : Map E (List (PoolSocket A)))
      (old : Option (List (PoolSocket A))) (j : E)
      → find j (add_to key blank k sk table old).0
        ≡ (if same j k then some (listed old ++ sk ∷ []) else find j table)
  unfolding add_to
  add_to-listed k sk table none j = find-assign j k (sk ∷ []) table
  add_to-listed k sk table (some sks) j = find-assign j k (sks ++ sk ∷ []) table

  -- AddSocket puts the socket at the end of the list of its key, and leaves every other key as it is.
  pub add_socket-listed :
      (sk : PoolSocket A) (table : Map E (List (PoolSocket A))) (j : E)
      → let k = key_by_type key blank sk.type_of sk in
        find j (add_socket key blank sk table).0
        ≡ (if same j k then some (listed (find k table) ++ sk ∷ []) else find j table)
  unfolding add_socket
  add_socket-listed sk table j =
      add_to-listed (key_by_type key blank sk.type_of sk) sk table
        (find (key_by_type key blank sk.type_of sk) table) j
