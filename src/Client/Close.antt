-- ===== src/Client/Close.antt =====
-- Closing clients in src/redis/client.c: `free_redis_client_async` and `free_redis_client`, with the
-- server's list `clients_to_close`. A client in the list is known by a number.
use latte_redis_server.Prelude.{
  ℕ, ◌≡◌, refl, List, [], ◌∷◌, ◌++◌, Bool, true, false, ◌||◌, Option, none, some, ◌==◌, ◌∙◌,
  append-nil, if◌then◌else◌,
}
use latte_redis_server.Client.{Client, has_flag, client_lua}

-- The list library: `list_add_node_tail`, `list_search_key` (`none` is NULL) and `list_del_node`, on lists `Q`
-- with nodes `N`.
pub record ClientLists (Q N : Type 0) : Type 0 where
  pub list_add_node_tail : Q → ℕ → Q
  pub list_search_key : Q → ℕ → Option N
  pub list_del_node : Q → N → Q

abbrev pub is_listed : ℕ → List ℕ → Bool
is_listed id [] = false
is_listed id (x ∷ xs) = x == id || is_listed id xs

-- What is relied on: `items` are the clients in a list, in order; a client is added behind them, and a search
-- finds the node of the first one, which is the one deleted.
pub record ClientListLaws {Q N : Type 0} (lists : ClientLists Q N) : Type 0 where
  pub items : Q → List ℕ
  pub items-add : (q : Q) (id : ℕ) → items (lists.list_add_node_tail q id) ≡ items q ++ (id ∷ [])
  pub search-del :
      (q : Q) (id : ℕ) (before after : List ℕ)
      → items q ≡ before ++ (id ∷ after)
      → is_listed id before ≡ false
      → (node : N) × (lists.list_search_key q id ≡ some node)
        × (items (lists.list_del_node q node) ≡ before ++ after)

module _ {Q N : Type 0} (lists : ClientLists Q N) where
  unfoldable pub free_redis_client_async : ℕ → Client → Q → Client × Q
  free_redis_client_async id c clients_to_close =
      if c.close_asap || has_flag c.flag client_lua
      then (c, clients_to_close)
      else (record c { close_asap = true }, lists.list_add_node_tail clients_to_close id)

  unfoldable pub delete_node : Q → Option N → Option Q
  delete_node q none = none
  delete_node q (some node) = some (lists.list_del_node q node)

  -- The list after the call; `none` is the failed assertion that the client is in it.
  unfoldable pub free_redis_client : ℕ → Client → Q → Option Q
  unfolding delete_node
  free_redis_client id c clients_to_close =
      if c.close_asap
      then delete_node clients_to_close (lists.list_search_key clients_to_close id)
      else some clients_to_close

  -- Scheduling a client that is neither closing nor Lua's and is not in the list of clients to close, twice,
  -- and then freeing it: the first call puts it behind the others, the second changes nothing, and freeing
  -- finds the client in the list and leaves the clients that were in it before, in their order.
  pub free_redis_client-async :
      (laws : ClientListLaws lists) (id : ℕ) (c : Client) (clients_to_close : Q)
      → c.close_asap ≡ false
      → has_flag c.flag client_lua ≡ false
      → is_listed id (laws.items clients_to_close) ≡ false
      → (c' : Client) × (queue : Q) × (last : Q) × (free_redis_client_async id c clients_to_close
          ≡ (c', queue))
        × (laws.items queue ≡ laws.items clients_to_close ++ (id ∷ []))
        × (free_redis_client_async id c' queue ≡ (c', queue))
        × (free_redis_client id c' queue ≡ some last)
        × (laws.items last ≡ laws.items clients_to_close)
  unfolding free_redis_client_async free_redis_client
  free_redis_client-async laws id c clients_to_close open_lem not_lua absent =
      let queue = lists.list_add_node_tail clients_to_close id in
      let added = laws.items-add clients_to_close id in
      let (node, found, left) =
        laws.search-del queue id (laws.items clients_to_close) [] added absent in
      (
        record c { close_asap = true },
        queue,
        lists.list_del_node queue node,
        rw (open_lem, not_lua) refl,
        added,
        refl,
        rw found refl,
        left ∙ append-nil (laws.items clients_to_close),
      )
