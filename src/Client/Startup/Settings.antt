-- ===== src/Client/Startup/Settings.antt =====
-- The settings of a configuration file become the settings of the program.
use coflow_sim_online.Base.{IsInt, [], ap, append-nil, false, length, refl, some, subst, ◌<◌, ◌≡◌}
use coflow_sim_online.Common.Float.{Float, FloatLaws}
use coflow_sim_online.Text.RoundTrip.{IsWord}
use coflow_sim_online.Text.Load.{load_text-word, load_int-int}
use coflow_sim_online.Client.Startup.{
  Document, Config, parse_config, load_double, ip_size, net_card_name_size, stream,
}

module _ {D : Type 0} where
  -- The document with these settings.
  abbrev pub document_of : Config D → Document D
  document_of c = record {
    master_server_ip = some c.master_server_ip;
    master_server_port = some c.master_server_port;
    client_server_ip = some c.client_server_ip;
    client_server_port = some c.client_server_port;
    thread_num = some c.thread_num;
    net_card_name = some c.net_card_name;
    net_card_bandwidth_mbs = some c.net_card_bandwidth_mbs;
  }

  -- The texts are words that fit their arrays, and the numbers are `int` values.
  pub record IsSettable (c : Config D) : Type 0 where
    pub master_word : IsWord c.master_server_ip
    pub master_short : length c.master_server_ip < ip_size
    pub master_int : IsInt c.master_server_port
    pub client_word : IsWord c.client_server_ip
    pub client_short : length c.client_server_ip < ip_size
    pub client_int : IsInt c.client_server_port
    pub card_word : IsWord c.net_card_name
    pub card_short : length c.net_card_name < net_card_name_size
    pub threads_int : IsInt c.thread_num

  module _ (float : Float D) (laws : FloatLaws float) where
    load_double-double : (d old : D) → load_double float d old [] ≡ (laws.shown d, [])
    unfolding load_double
    load_double-double d old =
        let whole =
          subst
            (λ x. float.read old (stream x) ≡ (laws.shown d, record { unread = []; good = false }))
            (append-nil (float.print d)) (laws.read_print old d [] tt) in
        rw whole refl

    -- From a document whose texts are words that fit their arrays and whose numbers are int
    -- values, parseConfig sets every variable to its member, whatever they held before; of the
    -- bandwidth, to the value that six digits show.
    pub parse_config-document_of :
        (c old : Config D)
        → IsSettable c
        → parse_config float (document_of c) old
          ≡ some (record c { net_card_bandwidth_mbs = laws.shown c.net_card_bandwidth_mbs })
    unfolding parse_config
    parse_config-document_of c old h =
        rw
          (
            load_text-word ip_size c.master_server_ip old.master_server_ip h.master_word
                h.master_short,
            load_int-int c.master_server_port old.master_server_port h.master_int,
            load_text-word ip_size c.client_server_ip old.client_server_ip h.client_word
                h.client_short,
            load_int-int c.client_server_port old.client_server_port h.client_int,
            load_int-int c.thread_num old.thread_num h.threads_int,
            load_text-word net_card_name_size c.net_card_name old.net_card_name h.card_word
                h.card_short,
          )
          (ap (λ r. some (record c { net_card_bandwidth_mbs = r.0 }))
            (load_double-double c.net_card_bandwidth_mbs old.net_card_bandwidth_mbs))
