-- ===== src/Http/Serve/Released.antt =====
-- The two connections of a request that is served.
use wireproxy.Base.{refl, inl, inr, Bool-cases, Option-cases}
use wireproxy.Http.Serve.{
  Request, World, handle_conn, handle, finish, serve_allowed, serve_answered, serve,
}
use wireproxy.Http.{HttpServer, Answer, allowed, refused, authenticate, dial_address}
use wireproxy.Text.{codes, text_eq}
use wireproxy.Traffic.{settle, IsTidy, both_handed_over, client_shut, both_shut}

finish-IsTidy-conn : (w : World) (req : Request) → IsTidy (finish (handle_conn w req))
unfolding handle_conn settle
finish-IsTidy-conn w req =
    let addr = dial_address req.host (codes "443") in
    elim (Bool-cases (w.dials addr)) [
      | inr failed ↦ rw failed (client_shut, refl, inr (refl, inr refl))
      | inl connects ↦ elim (Bool-cases w.writes) [
        | inl writes ↦ rw (connects) (rw writes (both_handed_over, refl, inl (refl, refl)))
        | inr breaks ↦ rw (connects) (rw breaks (both_shut, refl, inr (refl, inl refl)))
      ]
    ]

finish-IsTidy-get : (w : World) (req : Request) → IsTidy (finish (handle w req))
unfolding handle settle
finish-IsTidy-get w req =
    let addr = dial_address req.host (codes "80") in
    elim (Bool-cases (w.dials addr)) [
      | inr failed ↦ rw failed (client_shut, refl, inr (refl, inr refl))
      | inl connects ↦ elim (Bool-cases w.writes) [
        | inl writes ↦ rw (connects) (rw writes (both_handed_over, refl, inl (refl, refl)))
        | inr breaks ↦ rw (connects) (rw breaks (both_shut, refl, inr (refl, inl refl)))
      ]
    ]

serve_answered-IsTidy : (w : World) (req : Request) (a : Answer) → IsTidy (serve_answered w req a)
unfolding settle serve_allowed
serve_answered-IsTidy w req (refused code) = (client_shut, refl, inr (refl, inr refl))
serve_answered-IsTidy w req allowed = elim (Bool-cases (text_eq req.method (codes "CONNECT"))) [
  | inl connect ↦ rw connect (finish-IsTidy-conn w req)
  | inr other ↦ elim (Bool-cases (text_eq req.method (codes "GET"))) [
    | inl get ↦ rw (other, serve_allowed) (rw get (finish-IsTidy-get w req))
    | inr neither ↦ rw (other, serve_allowed) (rw neither (client_shut, refl, inr (refl, inr refl)))
  ]
]

-- Whatever the client sends and whatever the dial and the writes answer, serving a connection uses
-- the client's and the peer's connection only while they are open and in hand, itself closes
-- neither twice, and ends with both closed or both with the goroutines that copy.
pub serve-IsTidy : (s : HttpServer) (w : World) → IsTidy (serve s w)
unfolding serve settle
serve-IsTidy s w = elim (Option-cases w.request) [
  | inl unread ↦ rw (unread, serve) (client_shut, refl, inr (refl, inr refl))
  | inr (req, got) ↦
      rw (got, serve) (serve_answered-IsTidy w req (authenticate s req.authorization))
]
