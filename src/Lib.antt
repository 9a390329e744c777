-- ===== src/Lib.antt =====
-- The core of OpenSRF's C library: lists, string arrays and hashes, the reading and writing of JSON
-- text, sessions of clients with their requests, and the router, which forwards messages to servers.
-- Paths are from the root of the repository.
--
-- Parts and files
-- - src/libopensrf/osrf_list.c is OsrfList: an array of pointers with a count, a capacity and a
--   callback. A slot is an option, `none` for NULL. osrfListSet is `set_item`, osrfListGetIndex is
--   `get_index`, and every other operation has the name of its function without the prefix.
--   OsrfList/Valid has the representation invariant, OsrfList/Access what each position reads as
--   after an operation, OsrfList/Search the searches and the view of a list as a list without gaps.
-- - src/libopensrf/osrf_hash.c is OsrfHash: a store of nodes, each named by its index, with the buckets
--   as lists of OsrfList and the links of the list. osrfHashSet is `hash_set`, and so on. Removal is
--   in OsrfHash/Deletion, the keys and the iterator are in OsrfHash/Traversal.
--   OsrfHash/Entries is the ordered association list that a hash stands for, OsrfHash/Valid the
--   representation invariant, OsrfHash/Links the linked list on bare positions. OsrfHash/Find is about
--   the two searches; Nodes, Removal, RemovalValid and Erase about removal; Buckets, Insertion, Added
--   and Put about osrfHashSet; Reading about reading afterwards; Walks and Parked about the iterator.
-- - src/libopensrf/string_array.c is StringArray, which calls OsrfList as the code does.
--   StringArray/Strings relates an array to the list of its strings, StringArray/Removal and
--   StringArray/Tokens are about osrfStringArrayRemove and osrfStringArrayTokenize.
-- - jsonIsNumeric and jsonScrubNumber of src/libopensrf/osrf_json_object.c are JsonNumber.
--   JsonNumber/Grammar is the JSON grammar of numbers, JsonNumber/Exponent and JsonNumber/Decide
--   compare the code with it, JsonNumber/Scrub is about jsonScrubNumber.
-- - src/libopensrf/jsonpush.c is JsonPush: the parser's record, its stack and its complaints in
--   JsonPush/State, the handlers of the states between tokens in JsonPush/Values and those of
--   strings, numbers and keywords in JsonPush/Literals, each under the name it has in C, and
--   jsonPush and jsonPushParserFinish in JsonPush/Drive. The callbacks are a record of functions on a
--   blob, about which nothing is assumed but, in some theorems, that they log the events. The parser
--   calls StringArray for the keys and JsonNumber for its numbers.
--   JsonPush/Events says in which order events may come, without the parser, and JsonPush/Nesting
--   what the stack stands for; JsonPush/Steps, Agree, AgreeValues, AgreeLiterals, AgreeText and Sound
--   carry the agreement of the two through every handler. JsonPush/Total is about reading a character
--   again, JsonPush/Order about repeated calls, JsonPush/Chunks about a text in several chunks, and
--   JsonPush/Finish about the end of the input. A callback does not itself push to the parser; the
--   one at the end of a value may resume it.
-- - src/libopensrf/osrf_utf8.c is Utf8: the table of bytes and the automaton of buffer_append_utf8.
--   Utf8/Scans is about what is written, Utf8/Reading and Utf8/RoundTrip about reading it back with
--   JsonPush.
-- - src/router/osrf_router.c is Router: the records and the operations on classes and nodes, which use
--   OsrfHash as the code does, and in Router/Handlers the bounced messages, the commands and the loops
--   over what comes in. A message comes with what the one call of client_connect or
--   client_send_message that may follow it comes to; what is sent is a list of effects. client_send_message of
--   src/libopensrf/transport_client.c puts the connection's Jabber ID into the message, which the node keeps. A class is
--   changed through its pointer, that is, written back to the hash of classes.
--   Router/Stored is about a property of all the entries of a hash, Router/Valid has the invariant,
--   Router/Commands, Router/Forward, Router/RoundRobin and Router/Incoming are about the commands, one
--   message to a class, several in turn, and the loop over what comes for a class.
-- - src/libopensrf/osrf_transgroup.c is TransportGroup: a hash of nodes under their domains. A socket's
--   number, which is not negative, stands for the connection of a node; what the transport client and
--   select return are parameters. TransportGroup/Receive is about osrfTransportGroupRecvAll,
--   TransportGroup/Sending about osrfTransportGroupSend.
-- - src/libopensrf/transport_message.c is TransportMessage, as far as the parts above use it;
--   TransportMessage/Domain is about the domain of a Jabber ID, TransportMessage/Parts about the user
--   and the resource.
-- - the growing buffer of src/libopensrf/utils.c is GrowingBuffer, with the freeing of the buffer at
--   BUFFER_MAX_SIZE and the writing behind its memory as outcomes; GrowingBuffer/Growth is about what it keeps.
-- - the jsonObject of src/libopensrf/osrf_json_object.c is JsonObject: a tree whose hashes are entries in
--   order and whose arrays are slots. The classes of src/libopensrf/osrf_json_tools.c are encoded and
--   decoded there; JsonObject/Storing is about keys, JsonObject/Classes about copies and classes.
-- - src/libopensrf/osrf_message.c is OsrfMessage, as far as the parts below build messages.
-- - src/libopensrf/osrf_app_session.c is AppSession: a session with its table of requests, which are named
--   by their indices in a store. AppSession/Queue has the queue of responses, AppSession/Serving the
--   messages of a server's answer, AppSession/Waiting connecting, sending and waiting, and
--   AppSession/Making the making of requests. What osrf_app_session_queue_wait makes of a session is an
--   argument, and so is what jsonParse and osrfXmlEscapingLength return and the product in double
--   arithmetic of a chunk's size. AppSession/Requests, Unlinking, Finishing and Adding are about the
--   table, AppSession/Responses, Collected and Overflow about partial messages,
--   AppSession/Waiting/Connecting, Waiting/Timeout and Making/Found about the rest.
-- - src/libopensrf/osrf_stack.c is Stack, as far as a client takes messages in. Stack/Placed and Stack/Taking are
--   about the messages for one request, Stack/Answers about a server's whole answer, Stack/Calls about a request
--   from its making to its result. Stack/Packets is the loop of
--   osrf_stack_transport_handler over the messages of a packet, with the requests that it sends again.
-- - Ctype has the tests of <ctype.h> in the "C" locale. Prelude has the names and lemmas that are
--   shared; Prelude/Lists has lists over the native numbers. The files named Tests hold runs.
--
-- Numbers and fuel
-- - `unsigned int` counts and the `int` lengths of what is added to a growing buffer keep their wrap-around
--   (modulo 2 ^ 32). Positions are bounded by
--   `max_position`, the largest for which the capacity stays within an `int`.
-- - The loop by which osrfListSet grows its array has the position plus one as fuel: each round adds
--   256, so it ends before the fuel does. jsonPush reads a character at most three times
--   (`max_rounds`), which is enough for every state that can be reached, also if a callback has left
--   a character to be read again.
-- - The walks along the linked list of a hash have one round for each node of the store and one more;
--   the list goes through the store in ascending order, so it ends within them. The number of nodes is
--   bounded by `max_position` like the counts of the lists.
-- - osrfTransportGroupSend has two rounds for each node of the store and two more: each round moves the
--   iterator on by two nodes or back to the first one. Where the rounds did not suffice the model
--   would have no result.
-- - The loop that doubles the size of a growing buffer has one round more than the length that is asked
--   for: a size that is not 0 grows by at least one in each. The loop of osrfSendChunkedResult has a
--   round for each byte. The search in a bucket has one round more than there are requests.
-- - A wait ends with the rounds that are given; where they do not suffice there is no result.
-- - Bytes are natural numbers. A text is its bytes before the nul.
--
-- Not modelled
-- - NULL for a whole list, array, hash, key or parser, exhausted memory, messages to the log, and freeing
--   but where the text above says so. The buffers of JsonPush and Utf8 are byte lists without limits.
-- - The bits of `osrf_utf8_mask_` are read by ranges of equal entries.
-- - The router's answers to requests of applications, which have no result in the model, and its select
--   loop; a name with the character `%`, which the router passes on as a format. The same holds for the
--   keys of jsonObjects.
-- - osrfNewTransportGroupNode.
-- - The global cache of sessions, the messages that a wait takes in, which are arguments, and the server's side of
--   osrf_stack.c.
-- - The printing of jsonObjects, their numbers and booleans, and the serialisation of messages.
-- - The servers with their methods and processes, the settings, the sockets and the gateways.
pub mod Prelude
pub mod Router
pub mod TransportMessage
pub mod TransportGroup
pub mod Stack
pub mod AppSession
pub mod OsrfMessage
pub mod JsonObject
pub mod GrowingBuffer
pub mod OsrfHash
pub mod OsrfList
pub mod StringArray
pub mod Ctype
pub mod JsonNumber
pub mod JsonPush
pub mod Utf8
