-- ===== src/Handlers/Lengths.antt =====
-- The header Content-Length of the responses that the server makes itself.
use mathlib.Core.Path.{subst}
use barcelona.Base.{
  ℕ, ◌≡◌, refl, sym, ap, ◌∙◌, Option, none, some, [], leb, length, Bool-cases, inl, inr,
}
use barcelona.Base.Text.{Bytes, codes}
use barcelona.Base.Dict.{Dict, lookup, insert, lookup-insert_self}
use barcelona.Base.Int.{ℤ, pos}
use barcelona.Base.Number.{to_string}
use barcelona.Base.Expected.{ok}
use barcelona.Http.{ResponseBody, bytes, file, default_response, Request, Response}
use barcelona.Http.Status.{StatusCode, enum_integer, internal_server_error}
use barcelona.Response.{create_text, create_stock_response, stock_headers, stock_body, phrase}
use barcelona.Handlers.{redirect, redirect_to, with_target, is_redirect}

abbrev pub size_of : ResponseBody → ℕ
size_of (bytes b) = length b
size_of (file f) = f.size

-- The header is there and gives the size of the body; or it is absent and there is no body.
abbrev pub Announced : Option Bytes → Response → Type 0
Announced none r = r.body ≡ bytes []
Announced (some v) r = v ≡ to_string (size_of r.body)

abbrev pub IsAnnounced : Response → Type 0
IsAnnounced r = Announced (lookup (codes "Content-Length") r.headers) r

-- A map whose Content-Length was set last.
pub announced :
    (m : Dict) (r : Response)
    → r.headers ≡ insert (codes "Content-Length") (to_string (size_of r.body)) m
    → IsAnnounced r
announced m r e =
    subst (λ o. Announced o r)
      (sym (lookup-insert_self (codes "Content-Length") (to_string (size_of r.body)) m)
        ∙ ap (λ (h : Dict). lookup (codes "Content-Length") h) (sym e))
      refl

create_text-IsAnnounced : (body content_type : Bytes) → IsAnnounced (create_text body content_type)
unfolding create_text
create_text-IsAnnounced body content_type =
    announced (insert (codes "Content-Type") content_type []) (create_text body content_type) refl

module _ (enum_name : StatusCode → Bytes) where
  abbrev with_body : StatusCode → Response
  with_body code = record default_response {
    status_code = pos (enum_integer code);
    reason_phrase = phrase enum_name code;
    headers = stock_headers enum_name code;
    body = bytes (stock_body enum_name code);
  }

  pub stock-IsAnnounced : (code : StatusCode) → IsAnnounced (create_stock_response enum_name code)
  unfolding create_stock_response stock_headers lookup
  stock-IsAnnounced code = elim (Bool-cases (leb 400 (enum_integer code))) [
    | inl e ↦
        rw (e, create_stock_response)
          (announced
            (insert (codes "Content-Type") (codes "text/plain; charset=utf-8")
              (insert (codes "Connection") (codes "close") []))
            (with_body code) refl)
    | inr e ↦ rw (e, create_stock_response) refl
  ]

  redirect_to-IsAnnounced :
      (status_of : ℤ → Option StatusCode) (o : Option StatusCode) (target_url : Bytes)
      → IsAnnounced (redirect_to enum_name status_of o target_url)
  unfolding redirect_to with_target
  redirect_to-IsAnnounced status_of none target_url = stock-IsAnnounced internal_server_error
  redirect_to-IsAnnounced status_of (some code) target_url = elim (Bool-cases (is_redirect code)) [
    | inl e ↦
        rw (e, redirect_to)
          (announced _ (with_target target_url (create_stock_response enum_name code)) refl)
    | inr e ↦ rw (e, redirect_to) (stock-IsAnnounced internal_server_error)
  ]

  -- Every response that createStockResponse, createText or RedirectHandler makes either has a
  -- Content-Length that is the decimal form of the size of its body, or has neither the header nor
  -- a body.
  pub responses-IsAnnounced :
      (status_of : ℤ → Option StatusCode) (code : StatusCode) (status_code : ℤ)
      (body content_type target_url : Bytes) (request : Request)
      → IsAnnounced (create_stock_response enum_name code)
        × IsAnnounced (create_text body content_type)
        × ((r : Response) × (redirect enum_name status_of status_code target_url request ≡ ok r)
            × IsAnnounced r)
  unfolding redirect
  responses-IsAnnounced status_of code status_code body content_type target_url request = (
    stock-IsAnnounced code,
    create_text-IsAnnounced body content_type,
    (
      redirect_to enum_name status_of (status_of status_code) target_url,
      refl,
      redirect_to-IsAnnounced status_of (status_of status_code) target_url,
    ),
  )
