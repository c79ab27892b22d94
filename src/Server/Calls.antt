-- ===== src/Server/Calls.antt =====
-- Calls as documents, and what the server finds in the bytes of one (rpcserver.cpp).
use zeromq_rpc_test.Prelude.{◌≤◌, ◌<◌, ◌≡◌, ◌∙◌, ap, false, Bytes, codes, has_nul, length, arith}
use zeromq_rpc_test.External.Doc.{Doc, str, arr, dict, end, item}
use zeromq_rpc_test.External.Mpack.{Mpack}
use zeromq_rpc_test.External.Mpack.Reading.{IsReadable, nodes, depth, Shows, CanRead}
use zeromq_rpc_test.Server.Request.{requestid_size}
use zeromq_rpc_test.Server.Handler.{pool_size, function_name_size}
use zeromq_rpc_test.Server.Requests.{IsRequest, IsId}

module _ {F : Type 0} where
  -- [{"request_id": id}, name, params]
  abbrev pub request_document : Bytes → Bytes → Doc F → Doc F
  request_document id name params = arr (
      item (dict (item (str (codes "request_id")) (item (str id) end)))
        (item (str name) (item params end)))

  -- Calls whose id and name are C strings that fit their buffers, the id not empty, and whose
  -- parameters can be read and fit the pool.
  pub record IsCall (IsFloat : F → Type 0) (id name : Bytes) (params : Doc F) : Type 0 where
    pub id_there : 0 < length id
    pub id_fits : length id < requestid_size
    pub id_plain : has_nul id ≡ false
    pub name_fits : length name < function_name_size
    pub name_plain : has_nul name ≡ false
    pub readable : IsReadable IsFloat params
    pub few : nodes params ≤ 123
    pub shallow : depth params ≤ 30

module _ {F : Type 0} (M : Mpack F) (R : CanRead M) (id name : Bytes) (params : Doc F)
    (call : IsCall R.IsFloat id name params) where
  abbrev request : Doc F
  request = request_document id name params

  request-IsReadable : IsReadable R.IsFloat request
  request-IsReadable = ground (arith, call.id_fits, call.name_fits, call.readable)

  pub request_read :
      (M.failed (M.tree_parse (M.encode (item request end)) pool_size) ≡ false)
      × Shows M R.narrow (M.root (M.tree_parse (M.encode (item request end)) pool_size)) request
  request_read =
      R.parse_written request pool_size request-IsReadable (omega (arith, call.few))
        (omega (arith, call.shallow))

  module _ (t : M.Tree) (ok : M.failed t ≡ false) (h : Shows M R.narrow (M.root t) request) where
    pub tree-IsRequest :
        (v : M.Node) × IsRequest M t v name
        × IsId M v id
        × Shows M R.narrow (M.child (M.root t) 2) params
    unfolding Shows
    tree-IsRequest =
        let (v, found, shown) = h.2.0.2.0 in
        let name_shown = h.2.1.0 in
        (
          v,
          record {
            sound = ok;
            listed = h.0;
            long = omega (arith, h.1);
            headed = h.2.0.0;
            has_id = found;
            named = (
              name_shown.0,
              omega (arith, name_shown.1, call.name_fits),
              ap has_nul name_shown.2 ∙ call.name_plain,
            );
            name_is = name_shown.2;
          },
          (
            (shown.0, omega (arith, shown.1, call.id_fits), ap has_nul shown.2 ∙ call.id_plain),
            shown.2,
            omega (arith, shown.1, call.id_there),
          ),
          h.2.1.1.0,
        )
