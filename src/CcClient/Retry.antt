-- ===== src/CcClient/Retry.antt =====
-- The posts of `_post_query` (src/asterixdb_mcp/cc_client.py), against the first answer.
use asterixdb_mcp_server.Prelude.{
  ◌≡◌, refl, ◌∙◌, Bool, true, false, List, [], ◌∷◌, ◌++◌, if◌then◌else◌,
}
use asterixdb_mcp_server.Http.{Form, Transport, response, stale, timed_out, failed, Env}
use asterixdb_mcp_server.CcClient.{
  Client, headers, post_query_once, second_post, first_post, post_query,
}
use asterixdb_mcp_server.CcClient.ReadOnly.{recording}

unfoldable pub is_stale : Transport → Bool
is_stale (stale e) = true
is_stale _ = false

module _ {W : Type 0} (env : Env W) (client : Client) where
  -- The two answers there may be: to the first request, and to the one after it.
  abbrev pub answer : Form → W → Transport × W
  answer form = env.post "/query/service" form (headers client.settings)

  abbrev pub posts : Form → Transport → List Form
  posts form first = if is_stale first then form ∷ form ∷ [] else form ∷ []

  second_post-posted :
      (t : Transport) (w : W × List Form) → (second_post (recording env) client (t, w)).1.1 ≡ w.1
  unfolding second_post
  second_post-posted (response s c) w = refl
  second_post-posted (stale e) w = refl
  second_post-posted (timed_out e) w = refl
  second_post-posted (failed e) w = refl

  twice :
      (form : Form) (posted : List Form)
      → (posted ++ (form ∷ [])) ++ (form ∷ []) ≡ posted ++ (form ∷ form ∷ [])
  twice form [] = refl
  twice form (f ∷ fs) = rw (twice form fs)

  first_post-posted :
      (form : Form) (t : Transport) (w : W) (posted : List Form)
      → (first_post (recording env) client form (t, (w, posted ++ (form ∷ [])))).1.1
        ≡ posted ++ posts form t
  unfolding first_post post_query_once is_stale
  first_post-posted form (response s c) w posted = refl
  first_post-posted form (stale e) w posted = second_post-posted _ _ ∙ twice form posted
  first_post-posted form (timed_out e) w posted = refl
  first_post-posted form (failed e) w posted = refl

  -- A request is sent once, and exactly once more, the same form again, if the first attempt met a
  -- stale connection: never a third time, and never again after a timeout, a response or another
  -- failure.
  pub post_query-posted :
      (form : Form) (w : W) (posted : List Form)
      → (post_query (recording env) client form (w, posted)).1.1
        ≡ posted ++ posts form (answer form w).0
  unfolding post_query post_query_once
  post_query-posted form w posted =
      first_post-posted form (answer form w).0 (answer form w).1 posted
