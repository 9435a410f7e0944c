-- ===== src/Rpc/Client/Reuse.antt =====
-- The table of HTTP clients of `RpcClient`: one client for each url, built once.
use rpc_latency_monitor.Prelude.{
  String, ◌≡◌, refl, inl, inr, some, lookup, lookup-insert, ==_refl, string_eq, Option-cases,
}
use rpc_latency_monitor.Crates.{Crates}
use rpc_latency_monitor.Rpc.Client.{Env, client_for, new_client}

module _ ⦃c : Crates⦄ where
  open c use {HttpClient}

  -- The client that was handed out is in the table, and those of the other urls are as they were.
  client_for-stored :
      (url : String) (e : Env)
      → lookup url (client_for url e).1.client.clients ≡ some (client_for url e).0
  unfolding client_for new_client
  client_for-stored url e = elim (Option-cases (lookup url e.client.clients)) [
    | inl missing ↦ rw (missing, client_for, lookup-insert, ==_refl url) refl
    | inr (http, found) ↦ rw (found, client_for) found
  ]

  client_for-known :
      (url : String) (e : Env) (http : HttpClient)
      → lookup url e.client.clients ≡ some http
      → client_for url e ≡ (http, e)
  unfolding client_for
  client_for-known url e http h = rw (h, client_for)

  -- Asking again for the client of a url gives the same client, builds none, and changes nothing,
  -- neither in the table nor in the world.
  pub client_for-twice :
      (url : String) (e : Env)
      → client_for url (client_for url e).1 ≡ ((client_for url e).0, (client_for url e).1)
  client_for-twice url e = client_for-known url (client_for url e).1 _ (client_for-stored url e)
