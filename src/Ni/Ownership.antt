-- ===== src/Ni/Ownership.antt =====
-- No payload of a request is lost, and none is freed or sent twice.
use android_device_samsung_d.Common.{
  ℕ, ◌≡◌, ap, ◌∙◌, Bool, true, Option, none, some, arith, if◌then◌else◌,
}
use android_device_samsung_d.Ni.Handlers.{admit, serve, loc_eng_ni_request_handler}
use android_device_samsung_d.Ni.Reach.{Reach}
use android_device_samsung_d.Ni.Types.{Which, supl, supl_es, NiNotification, Ni, session_of}

-- A session that is given to a request holds none.
pub admit-none :
    (d : Ni) (type : ℕ) (w : Which) → admit d type ≡ some w → (session_of w d).raw_request ≡ none
unfolding admit
admit-none d type supl e = ground arith
admit-none d type supl_es e = ground arith

module _ (spawned : Bool) (notif : NiNotification) (payload : Option ℕ) (d : Ni)
    (inited : d.ni_notify_cb ≡ true) where
  pub request-admit :
      {o : Option Which} (e : admit d notif.ni_type ≡ o)
      → loc_eng_ni_request_handler spawned notif payload d ≡ serve o spawned notif payload d
  unfolding loc_eng_ni_request_handler
  request-admit e =
      ap (λ b. if b then serve (admit d notif.ni_type) spawned notif payload d else d) inited
      ∙ ap (λ o. serve o spawned notif payload d) e
