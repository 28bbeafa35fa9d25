-- ===== src/Lib.antt =====
-- ibdd: the ROBDD package with complement edges, as a functional model of its C++ sources.
--
-- The program. A BDDNode is a machine word: the address of a DDNode with the edge (regular or
-- complement) in its lowest bit. A DDNode has a label and the words of its two children. A Manager owns
-- the unique table (UTable), which maps a triple of a label and two children to its only DDNode, the
-- computed table (CTable), a cache of results in which entries overwrite each other, and the vector of
-- variables. The operators of BDDNode are calls of Manager::ite. ite standardizes its arguments, tries
-- the terminal cases and the computed table, splits by the largest label, and makes the node of the two
-- results with Manager::findAdd. BDDNode::exist quantifies a variable, with the same computed table.
--
-- The files.
--   Prelude     library names, Boolean tests on numbers, lists; Partial: undefined behaviour as none
--   Word        BDDNode.cpp: getDDNodeWithEdge, isComplementEdge, operator !, the tag of an address
--   TableKey    TableKey.cpp and TableKey.hpp; Hashing: what both tables ask of a key
--   Platform    the machine: addresses of new, oversized shifts, uninitialised keys
--   UTable      UTable.hpp: load, clear, empty, find, add; UTable.Iterator: begin, end, the iterator;
--               UTable.Counted: find with its counter; UTable.Adds: the table as a list;
--               UTable.Iterator.Pairs: the iterator after add
--   CTable      CTable.hpp: load, clear, empty, hasNext, insert; CTable.Inserts: the cache as a list
--   Diagram     the abstract side: reduced ordered diagrams, their functions and cofactors, and Bryant's
--               theorem that equal functions have equal diagrams; Diagram.Reference: the diagram of a
--               truth table, made with no table and no heap
--   State       DDNode.hpp, Manager.hpp: fields and statics as a record, with the heap; the commands on
--               it; State.Valid says which diagram a word stands for and when a state is valid
--   Node        BDDNode.cpp: getHigh, getLow, getIndex, isLeaf
--   Unique      Manager.cpp: findAdd; BDDNode.cpp: the constructor of a triple
--   Cofactor    BDDNode.cpp: getCofactor
--   Standardize Manager.cpp: standardize, swap
--   Ite         Manager.cpp: isTerminal, ite
--   Setup       Manager.cpp: the constructor, createVariable; Setup.Clear: clear and the destructor
--   Operators   BDDNode.cpp: the operators * > < ^ + | % & == !=
--   Exist       Manager.cpp: existRecur; BDDNode.cpp: exist
--   References  DDNode.cpp: ++, -- and setID; BDDNode.cpp: constructors, destructor, assignment, as a step
--               relation over the BDDNodes that are alive
--   Marks       BDDNode.cpp: countNodes, countNodesRecur, setMarked; Marks.Size: how many different
--               diagrams are below one
--   Output      BDDNode.cpp: operator <<, showInfo; Dot: Manager.cpp: printNode, printNodeRecur,
--               printIndex, and Dot.Reader, a reader of the graph; Report: Manager.cpp: showInfo
--   Safety      the weaker invariant that also the operations keep that compute a wrong function: words
--               lead to nodes and labels fall from a node to its children
--   Growth      how many DDNodes a command makes: at most one at each call of ite
--   Session     programs over the package: sequences of calls, and expressions of Boolean formulas,
--               which are compared with their truth tables (Session.Reference), and with memory enough
--               return (Session.Total)
--   Tests       runs on a small machine, main.cpp among them, and the results at concrete inputs
--
-- How code becomes definitions. A method that changes the Manager or the heap is a command: a function
-- from a state to an outcome, which is a value with the next state, an exception of `new`, or a fault
-- (a failed assertion or undefined behaviour). References that a method updates are returned. size_t
-- is a number below 2 ^ 64 with its wrap-around written out, and a label is taken modulo 2 ^ 16 as by
-- its bit field. Labels decrease from the root to the leaves; the leaf has the label 0.
--
-- Fuel. getCofactor, ite, existRecur, countNodesRecur and setMarked go down at least one label at each
-- call. They recurse on fuel, and the fuel is one more than the largest label of the arguments. In a
-- safe state no call of getCofactor at a positive index, ite or exist ends without fuel, whatever the
-- computed table holds; the same holds of countNodes, operator << and printNode where the labels fall.
--
-- What is written to a stream is a list of pieces, one for each `<<`, that grows at its end.
--
-- Two invariants. A state is valid when, beside its heap, every entry of the computed table is a result of
-- ite: then the operators compute their connectives. getCofactor below the root makes nodes that are not
-- reduced, and exist puts entries into the table that are no results of ite, so after them a state is only
-- safe: labels and addresses are right, but not the functions.
--
-- Assumptions on the machine, the fields of Platform: `new` returns distinct addresses, not null and
-- multiples of four, until a capacity is reached; a key that `new` leaves uninitialised in the computed
-- table does not start with the address of a DDNode. A shift by 64 or more has any fixed result.
--
-- Memory. An operator on BDDNodes with labels up to n makes at most 2 ^ (n + 1) - 1 DDNodes, one at each
-- call of ite within the depth of the labels (`calls` of Growth.Ite). A program whose operators
-- fit into the capacity of the Platform by this count returns; any other may also end with the
-- exception of `new`.
--
-- Manager::clear runs its loop over a table that is already empty, so one round is enough; a loop over
-- a loaded table takes a round for each pair and one more.
--
-- The counters `int i` of UTable::empty and UTable::find overflow at 2^31. empty and find_counted count
-- so; findAdd calls find, which has no bound: it is find_counted while no bucket has 2^31 pairs, and
-- findAdd scans the whole bucket before each pair that it adds. The `int i` of the constructor of
-- Manager stays below 2^16 wherever a theorem speaks of it.
--
-- Not modelled. What a stream makes of a pointer, a number or a double, and getrusage and the program dot.
-- The reference counter `id` and the flag `marked` of a DDNode are not in the heap but
-- in References and Marks, as no other operation reads them, and no DDNode is freed while a Manager
-- lives. operator -- of the iterator is ill-formed C++ once it is used. The memory of the containers:
-- `new std::vector[size]` and `new std::pair[size]` in load and push_back of the buckets and of the
-- variables are taken to succeed at any size, and only `new DDNode` has a capacity.
pub mod Prelude
pub mod Word
pub mod TableKey
pub mod Platform
pub mod Partial
pub mod Hashing
pub mod UTable
pub mod CTable
pub mod Diagram
pub mod State
pub mod Node
pub mod Unique
pub mod Cofactor
pub mod Standardize
pub mod Ite
pub mod Setup
pub mod Operators
pub mod Output
pub mod Dot
pub mod Report
pub mod Exist
pub mod References
pub mod Marks
pub mod Safety
pub mod Growth
pub mod Session
mod Tests
