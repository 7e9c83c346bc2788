-- ===== src/Setup/Buffered.antt =====
-- What becomes of the servers that are set before and after `loc_eng_init`.
-- The settings, in order.
use android_device_samsung_d.Common.{
  ℕ, ◌≡◌, refl, ap, ◌∙◌, ◌≢◌, inl, inr, true, false, none, some, List, [], ◌∷◌, arith, ◌==◌,
  Bool-cases, pos,
}
use android_device_samsung_d.Engine.Messages.{GnssType, is_standalone_only, loc_eng_set_privacy}
use android_device_samsung_d.Engine.Types.{
  ServerType, cdma_pde_server, custom_pde_server, mpc_server, supl_server, init_msg, send,
}
use android_device_samsung_d.Setup.Servers.{
  Setup, Callbacks, InitConf, Resolver, buffer_server, set_server_of, loc_eng_set_server_proxy,
  cleared_setup, new_engine, init_of, loc_eng_init, set_buffered, loc_eng_agps_reinit, agps_init_of,
  loc_eng_agps_init,
}

abbrev pub set_servers : Resolver → List (ServerType × List ℕ × ℕ) → Setup → Setup
set_servers resolve [] s = s
set_servers resolve ((type, hostname, port) ∷ rest) s =
    set_servers resolve rest (loc_eng_set_server_proxy resolve type hostname port s).1

buffer-engine :
    (type : ServerType) (hostname : List ℕ) (port : ℕ) (s : Setup)
    → (buffer_server type hostname port s).engine ≡ s.engine
unfolding buffer_server
buffer-engine supl_server hostname port s = refl
buffer-engine cdma_pde_server hostname port s = refl
buffer-engine custom_pde_server hostname port s = refl
buffer-engine mpc_server hostname port s = refl

proxy-engine :
    (resolve : Resolver) (type : ServerType) (hostname : List ℕ) (port : ℕ) (s : Setup)
    → s.engine ≡ none
    → (loc_eng_set_server_proxy resolve type hostname port s).1.engine ≡ none
unfolding loc_eng_set_server_proxy set_server_of
proxy-engine resolve type hostname port s e =
    ap (λ o. (set_server_of resolve type hostname port o s).1.engine) e
    ∙ buffer-engine type hostname port s
    ∙ e

servers-engine :
    (resolve : Resolver) (settings : List (ServerType × List ℕ × ℕ)) (s : Setup)
    → s.engine ≡ none
    → (set_servers resolve settings s).engine ≡ none
servers-engine resolve [] s e = e
servers-engine resolve ((type, hostname, port) ∷ rest) s e =
    servers-engine resolve rest (loc_eng_set_server_proxy resolve type hostname port s).1
      (proxy-engine resolve type hostname port s e)

-- The setup that `loc_eng_init` leaves.
abbrev pub inited : Callbacks → ℕ → InitConf → Setup
inited cb event c = record cleared_setup {
  engine = (loc_eng_set_privacy 1 (some (send init_msg (new_engine cb event c)))).1;
}

init-inited :
    (cb : Callbacks) (event : ℕ) (c : InitConf) (s : Setup)
    → s.engine ≡ none
    → event ≢ 0
    → loc_eng_init (some cb) event c s ≡ (pos 0, inited cb event c)
unfolding loc_eng_init init_of
init-inited cb event c s fresh some_event =
    let live : event == 0 ≡ false = ground arith in rw live (ap (λ o. init_of cb event c o s) fresh)

no_buffered :
    (resolve : Resolver) (gnss : GnssType) (cb : Callbacks) (event : ℕ) (c : InitConf)
    → (loc_eng_agps_init resolve gnss true (inited cb event c)).engine ≡ (inited cb event c).engine
unfolding loc_eng_agps_init agps_init_of loc_eng_set_privacy loc_eng_agps_reinit set_buffered
no_buffered resolve gnss cb event c = elim (Bool-cases (is_standalone_only gnss)) [
  | inl only ↦ rw only refl
  | inr any_mode ↦ rw any_mode refl
]

-- Whatever servers are set before the engine is initialised, `loc_eng_init` leaves a setup that does not
-- depend on them, and the engine has no more messages after `loc_eng_agps_init` than before: no server is
-- ever handed on.
pub loc_eng_init-forgets :
    (resolve : Resolver) (settings : List (ServerType × List ℕ × ℕ)) (cb : Callbacks) (event : ℕ)
    (c : InitConf) (gnss : GnssType) (s : Setup)
    → s.engine ≡ none
    → event ≢ 0
    → (loc_eng_init (some cb) event c (set_servers resolve settings s) ≡ (pos 0, inited cb event c))
      × ((loc_eng_agps_init resolve gnss true
            (loc_eng_init (some cb) event c (set_servers resolve settings s)).1).engine
          ≡ (inited cb event c).engine)
loc_eng_init-forgets resolve settings cb event c gnss s fresh some_event =
    let e =
      init-inited cb event c (set_servers resolve settings s)
        (servers-engine resolve settings s fresh) some_event in
    (
      e,
      ap (λ r. (loc_eng_agps_init resolve gnss true r.1).engine) e
          ∙ no_buffered resolve gnss cb event c,
    )
